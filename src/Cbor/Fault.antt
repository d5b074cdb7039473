-- ===== src/Cbor/Fault.antt =====
-- Faults while the parameters are read.
use fido_touch.Prelude.{ℕ, ◌+◌, ◌%◌, ◌^◌, ◌≡◌, ◌≢◌, refl, Option, none, some, arith}
use fido_touch.Exec.{Result, ok, err, fault}
use fido_touch.Platform.{Item, Items, uint, map, end, item, broken}
use fido_touch.Cbor.{fields, parse_map}

module _ {Q : Type 0} (required : ℕ) (put_field : ℕ → Item → Q → Option (Result Q))
    (sound : (k : ℕ) (v : Item) (q : Q) → put_field k v q ≢ some fault) where
  field-ne-fault :
      (val_c k : ℕ) (q : Q) (v : Item) (rest : Items) (o : Option (Result Q))
      → put_field k v q ≡ o
      → fields required put_field ((k + 1) % 2 ^ 64) q (item v rest) ≢ fault
      → ((q' : Q) → fields required put_field ((k + 1) % 2 ^ 64) q' rest ≢ fault)
      → fields required put_field val_c q (item (uint k) (item v rest)) ≢ fault
  unfolding fields
  field-ne-fault val_c k q v rest none e skip go = ground arith
  field-ne-fault val_c k q v rest (some (ok q')) e skip go = ground (arith, go q')
  field-ne-fault val_c k q v rest (some (err x)) e skip go = ground arith
  field-ne-fault val_c k q v rest (some fault) e skip go = absurd (sound k v q e)

  fields-ne-fault : (val_c : ℕ) (q : Q) (is : Items) → fields required put_field val_c q is ≢ fault
  unfolding fields
  fields-ne-fault val_c q (end c) = ground arith
  fields-ne-fault val_c q (broken c) = ground arith
  fields-ne-fault val_c q (item (uint k) (broken c)) = ground arith
  fields-ne-fault val_c q (item (uint k) (end c)) = ground arith
  fields-ne-fault val_c q (item (uint k) (item v rest)) =
      field-ne-fault val_c k q v rest (put_field k v q) refl
        (fields-ne-fault ((k + 1) % 2 ^ 64) q (item v rest))
        (λ q'. fields-ne-fault ((k + 1) % 2 ^ 64) q' rest)
  fields-ne-fault val_c q (item _ rest) = ground arith

  pub parse_map-ne-fault : (q : Q) (is : Items) → parse_map required put_field q is ≢ fault
  unfolding parse_map
  parse_map-ne-fault q (item (map ms) rest) = fields-ne-fault 1 q ms
  parse_map-ne-fault q (item _ rest) = ground arith
  parse_map-ne-fault q _ = ground arith
