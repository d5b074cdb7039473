-- ===== src/Authorization.antt =====
-- src/fido/object_authorization.c: the epoch of the session, and the facts that an operation may
-- show to the object store. The bits of the facts are defined by the SDK (object_policy.h).
pub mod Epoch
use fido_touch.Prelude.{
  ℕ, ◌+◌, ◌%◌, ◌^◌, Bool, true, Option, none, some, bit_or, ◌==◌, if◌then◌else◌,
}

-- `fido_object_session_epoch` after `fido_object_authorization_session_invalidate`, a uint32_t
unfoldable pub invalidate : ℕ → ℕ
invalidate epoch = let next = (epoch + 1) % 2 ^ 32 in if next == 0 then 1 else next

abbrev pub namespace : ℕ
namespace = 0x0002

pub record Evidence : Type 0 where
  pub user_presence : Bool
  pub user_verification : Bool
  pub pin_uv_auth : Bool

-- `file_object_authorization_context_t`
pub record Context : Type 0 where
  pub facts : ℕ
  pub session_epoch : ℕ
  pub facts_epoch : ℕ
  pub caller_namespace : ℕ

-- FILE_OBJECT_FACT_* of the SDK
pub record FactBits : Type 0 where
  pub owning_application : ℕ
  pub session_bound : ℕ
  pub internal_firmware : ℕ
  pub user_presence : ℕ
  pub user_verification : ℕ
  pub app_pin : ℕ

add_fact : Bool → ℕ → ℕ → ℕ
add_fact holds bits facts = if holds then bit_or facts bits else facts

evidence_facts : FactBits → Evidence → ℕ → ℕ
unfolding add_fact
evidence_facts bits e facts = add_fact e.pin_uv_auth (bit_or bits.app_pin bits.user_verification) (
    add_fact e.user_verification bits.user_verification
      (add_fact e.user_presence bits.user_presence facts))

abbrev pub base_facts : FactBits → ℕ
base_facts bits = bit_or bits.owning_application bits.session_bound

-- The facts of a call: `none` is a null pointer for the evidence.
unfoldable pub build_facts : FactBits → Option Evidence → Bool → ℕ
unfolding evidence_facts
build_facts bits evidence true = bit_or (base_facts bits) bits.internal_firmware
build_facts bits none _ = base_facts bits
build_facts bits (some e) _ = evidence_facts bits e (base_facts bits)

-- `fido_object_authorization_context_build` for a `context` that is not null
unfoldable pub context_build : ℕ → FactBits → Option Evidence → Bool → Context
unfolding build_facts
context_build epoch bits evidence internal = record {
  facts = build_facts bits evidence internal;
  session_epoch = epoch;
  facts_epoch = epoch;
  caller_namespace = namespace;
}
