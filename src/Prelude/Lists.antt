-- ===== src/Prelude/Lists.antt =====
-- Lists measured and indexed by native numbers, under the names of the library.
use Prim.Native.Nat.{ℕ, zero, suc, ◌+◌, ◌-◌, ◌<◌, min}
use mathlib.Core.Path.{◌≡◌, refl, ap, sym, ◌∙◌}
use mathlib.Core.Logic.{◌≢◌}
use mathlib.Core.List.{List, [], ◌∷◌, ◌++◌, map}
use mathlib.Core.Option.{Option, none, some}
use native.Mathlib.Omega.{arith}

module _ {ℓ} {A : Type ℓ} where
  abbrev pub length : List A → ℕ
  length [] = 0
  length (x ∷ xs) = suc (length xs)

  abbrev pub get_elem? : List A → ℕ → Option A
  get_elem? [] i = none
  get_elem? (x ∷ xs) zero = some x
  get_elem? (x ∷ xs) (suc i) = get_elem? xs i

  -- A write out of bounds changes nothing.
  abbrev pub set : List A → ℕ → A → List A
  set [] i v = []
  set (x ∷ xs) zero v = v ∷ xs
  set (x ∷ xs) (suc i) v = x ∷ set xs i v

  pub length-append : (xs ys : List A) → length (xs ++ ys) ≡ length xs + length ys
  length-append [] ys = omega arith
  length-append (x ∷ xs) ys = omega (arith, length-append xs ys)

module _ {ℓ} {A : Type ℓ} where
  pub length-set : (xs : List A) (i : ℕ) (v : A) → length (set xs i v) ≡ length xs
  length-set [] i v = refl
  length-set (x ∷ xs) zero v = refl
  length-set (x ∷ xs) (suc i) v = ap suc (length-set xs i v)

  pub get_elem?-set_self :
      (xs : List A) (i : ℕ) (v : A) → i < length xs → get_elem? (set xs i v) i ≡ some v
  get_elem?-set_self [] i v h = elim h [ ]
  get_elem?-set_self (x ∷ xs) zero v h = refl
  get_elem?-set_self (x ∷ xs) (suc i) v h = get_elem?-set_self xs i v (omega arith)

  pub get_elem?-set_ne :
      (xs : List A) {i j : ℕ} (v : A) → i ≢ j → get_elem? (set xs i v) j ≡ get_elem? xs j
  get_elem?-set_ne [] v h = refl
  get_elem?-set_ne (x ∷ xs) {i = zero} {j = zero} v h = absurd (h refl)
  get_elem?-set_ne (x ∷ xs) {i = zero} {j = suc j} v h = refl
  get_elem?-set_ne (x ∷ xs) {i = suc i} {j = zero} v h = refl
  get_elem?-set_ne (x ∷ xs) {i = suc i} {j = suc j} v h = get_elem?-set_ne xs v (λ e. h (ap suc e))

module _ {ℓ} {A : Type ℓ} where
  abbrev pub get_or : List A → ℕ → A → A
  get_or [] i d = d
  get_or (x ∷ xs) zero d = x
  get_or (x ∷ xs) (suc i) d = get_or xs i d

  abbrev pub take : ℕ → List A → List A
  take zero xs = []
  take (suc n) [] = []
  take (suc n) (x ∷ xs) = x ∷ take n xs

  abbrev pub drop : ℕ → List A → List A
  drop zero xs = xs
  drop (suc n) [] = []
  drop (suc n) (x ∷ xs) = drop n xs

  abbrev pub replicate : ℕ → A → List A
  replicate zero a = []
  replicate (suc n) a = a ∷ replicate n a

  pub take-append-drop : (n : ℕ) (xs : List A) → take n xs ++ drop n xs ≡ xs
  take-append-drop zero xs = refl
  take-append-drop (suc n) [] = refl
  take-append-drop (suc n) (x ∷ xs) = rw (take-append-drop n xs)

  pub length-take : (n : ℕ) (xs : List A) → length (take n xs) ≡ min n (length xs)
  length-take zero xs = omega arith
  length-take (suc n) [] = omega arith
  length-take (suc n) (x ∷ xs) = omega (arith, length-take n xs)

  pub length-drop : (n : ℕ) (xs : List A) → length (drop n xs) ≡ length xs - n
  length-drop zero xs = omega arith
  length-drop (suc n) [] = omega arith
  length-drop (suc n) (x ∷ xs) = omega (arith, length-drop n xs)

  pub length-replicate : (n : ℕ) (a : A) → length (replicate n a) ≡ n
  length-replicate zero a = refl
  length-replicate (suc n) a = ap suc (length-replicate n a)

  pub length-map {κ} : {B : Type κ} (xs : List A) (f : A → B) → length (map f xs) ≡ length xs
  length-map [] f = refl
  length-map (x ∷ xs) f = ap suc (length-map xs f)

  pub take-append : (xs ys : List A) {n : ℕ} → length xs ≡ n → take n (xs ++ ys) ≡ xs
  take-append [] ys {n = zero} h = refl
  take-append [] ys {n = suc n} h = absurd (omega (arith, h))
  take-append (x ∷ xs) ys {n = zero} h = absurd (omega (arith, h))
  take-append (x ∷ xs) ys {n = suc n} h = ap (λ l. x ∷ l) (take-append xs ys (omega (arith, h)))

  pub take_self : (xs : List A) {n : ℕ} → length xs ≡ n → take n xs ≡ xs
  take_self [] {n = zero} h = refl
  take_self [] {n = suc n} h = refl
  take_self (x ∷ xs) {n = zero} h = absurd (omega (arith, h))
  take_self (x ∷ xs) {n = suc n} h = ap (λ l. x ∷ l) (take_self xs (omega (arith, h)))

  pub drop-append :
      (xs ys : List A) (n : ℕ) {m : ℕ} → length xs ≡ m → drop (m + n) (xs ++ ys) ≡ drop n ys
  drop-append [] ys n {m = zero} h = let e : 0 + n ≡ n = omega arith in ap (λ k. drop k ys) e
  drop-append [] ys n {m = suc m} h = absurd (omega (arith, h))
  drop-append (x ∷ xs) ys n {m = zero} h = absurd (omega (arith, h))
  drop-append (x ∷ xs) ys n {m = suc m} h =
      let e : suc m + n ≡ suc (m + n) = omega arith in
      ap (λ k. drop k (x ∷ (xs ++ ys))) e ∙ drop-append xs ys n (omega (arith, h))

  pub drop-replicate : (n m : ℕ) (a : A) → drop m (replicate n a) ≡ replicate (n - m) a
  drop-replicate n zero a = let e : n ≡ n - 0 = omega arith in ap (λ k. replicate k a) e
  drop-replicate zero (suc m) a = let e : 0 ≡ 0 - suc m = omega arith in ap (λ k. replicate k a) e
  drop-replicate (suc n) (suc m) a =
      let e : n - m ≡ suc n - suc m = omega arith in
      drop-replicate n m a ∙ ap (λ k. replicate k a) e

  take_nil : (n : ℕ) → take n [] ≡ []
  take_nil zero = refl
  take_nil (suc n) = refl

  pub take_add : (m n : ℕ) (xs : List A) → take m xs ++ take n (drop m xs) ≡ take (m + n) xs
  take_add zero n xs = let e : n ≡ 0 + n = omega arith in ap (λ k. take k xs) e
  take_add (suc m) n [] = take_nil n ∙ sym (take_nil (suc m + n))
  take_add (suc m) n (x ∷ xs) =
      let e : suc (m + n) ≡ suc m + n = omega arith in
      ap (λ l. x ∷ l) (take_add m n xs) ∙ ap (λ k. take k (x ∷ xs)) e

  pub get_or-append :
      (xs : List A) (x d : A) (ys : List A) {n : ℕ}
      → length xs ≡ n
      → get_or (xs ++ (x ∷ ys)) n d ≡ x
  get_or-append [] x d ys {n = zero} h = refl
  get_or-append [] x d ys {n = suc n} h = absurd (omega (arith, h))
  get_or-append (y ∷ xs) x d ys {n = zero} h = absurd (omega (arith, h))
  get_or-append (y ∷ xs) x d ys {n = suc n} h = get_or-append xs x d ys (omega (arith, h))

  pub get_or-set_self :
      (xs : List A) (i : ℕ) (v d : A) → i < length xs → get_or (set xs i v) i d ≡ v
  get_or-set_self [] i v d h = elim h [ ]
  get_or-set_self (x ∷ xs) zero v d h = refl
  get_or-set_self (x ∷ xs) (suc i) v d h = get_or-set_self xs i v d (omega arith)

  pub drop_add : (m n : ℕ) (xs : List A) → drop (m + n) xs ≡ drop n (drop m xs)
  drop_add zero n xs = let e : 0 + n ≡ n = omega arith in ap (λ k. drop k xs) e
  drop_add (suc m) n [] = drop_nil (suc m + n) ∙ sym (drop_nil n)
    where
      drop_nil : (k : ℕ) → drop k [] ≡ []
      drop_nil zero = refl
      drop_nil (suc k) = refl
  drop_add (suc m) n (x ∷ xs) =
      let e : suc m + n ≡ suc (m + n) = omega arith in ap (λ k. drop k (x ∷ xs)) e ∙ drop_add m n xs

  pub take_add-append :
      (xs ys : List A) (n : ℕ) {m : ℕ} → length xs ≡ m → take (m + n) (xs ++ ys) ≡ xs ++ take n ys
  take_add-append [] ys n {m = zero} h = let e : 0 + n ≡ n = omega arith in ap (λ k. take k ys) e
  take_add-append [] ys n {m = suc m} h = absurd (omega (arith, h))
  take_add-append (x ∷ xs) ys n {m = zero} h = absurd (omega (arith, h))
  take_add-append (x ∷ xs) ys n {m = suc m} h =
      let e : suc m + n ≡ suc (m + n) = omega arith in
      ap (λ k. take k (x ∷ (xs ++ ys))) e
      ∙ ap (λ l. x ∷ l) (take_add-append xs ys n (omega (arith, h)))
