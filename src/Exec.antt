-- ===== src/Exec.antt =====
-- Handlers that change the state of the device and may stop: the C functions that leave by
-- `CBOR_ERROR`, `CBOR_CHECK` or an early `return`. What was written before stays written.
use fido_touch.Prelude.{ℕ, Bool, true, false}

-- `CborError error` of the handlers: the value of TinyCBOR that they test for, or a number, which
-- is another code of TinyCBOR, of the file system or of CTAP.
pub data Error : Type 0 where
  improper_value : Error
  code : ℕ → Error

-- `fault` is an access outside an array, after which C promises nothing.
pub data Result {ℓ} (A : Type ℓ) : Type ℓ where
  ok : A → Result A
  err : Error → Result A
  fault : Result A

abbrev pub Exec {ℓ} : Type ℓ → Type ℓ → Type ℓ
Exec S A = S → Result A × S

abbrev pub pure {ℓ} : {S A : Type ℓ} → A → Exec S A
pure a s = (ok a, s)

abbrev pub raise {ℓ} : {S A : Type ℓ} → ℕ → Exec S A
raise c s = (err (code c), s)

abbrev pub lift {ℓ} : {S A : Type ℓ} → Result A → Exec S A
lift r s = (r, s)

abbrev pub continue {ℓ} : {S A B : Type ℓ} → Result A → (A → Exec S B) → Exec S B
continue (ok a) f s = f a s
continue (err e) f s = (err e, s)
continue fault f s = (fault, s)

infixl 5 ◌>>=◌ ◌>>◌
abbrev pub ◌>>=◌ {ℓ} : {S A B : Type ℓ} → Exec S A → (A → Exec S B) → Exec S B
◌>>=◌ m f s = let (r, s') = m s in continue r f s'

abbrev pub ◌>>◌ {ℓ} : {S A B : Type ℓ} → Exec S A → Exec S B → Exec S B
m >> k = m >>= λ _. k

-- `if (test) { CBOR_ERROR(c); }`
abbrev pub fail_if {ℓ} : {S : Type ℓ} → Bool → ℕ → Exec S (Unit {ℓ})
fail_if true c = raise c
fail_if false c = pure tt

-- What a handler answers: 0, or the code by which it left.
abbrev pub status {ℓ} : {A : Type ℓ} → Result A → Result ℕ
status (ok a) = ok 0
status (err improper_value) = ok 0x11
status (err (code c)) = ok c
status fault = fault
