-- ===== src/Authorization/Epoch.antt =====
-- The epochs that follow one another.
use fido_touch.Prelude.{ℕ, zero, suc, ◌+◌, ◌-◌, ◌%◌, ◌^◌, ◌<◌, ◌≡◌, ◌≢◌, arith}
use fido_touch.Authorization.{invalidate}

abbrev pub IsEpoch : ℕ → Type 0
IsEpoch e = (0 < e) × (e < 2 ^ 32)

abbrev pub cycle : ℕ
cycle = 2 ^ 32 - 1

-- The epoch after `k` invalidations.
unfoldable pub advance : ℕ → ℕ → ℕ
advance zero e = e
advance (suc k) e = advance k (invalidate e)

pub invalidate-IsEpoch : (e : ℕ) → IsEpoch e → IsEpoch (invalidate e)
unfolding invalidate
invalidate-IsEpoch e h = ground arith

pub invalidate_lem : (e : ℕ) → IsEpoch e → invalidate e ≡ 1 + e % cycle
unfolding invalidate
invalidate_lem e h = ground arith

pub advance_lem : (k e : ℕ) → IsEpoch e → advance k e ≡ 1 + (e - 1 + k) % cycle
unfolding advance
advance_lem zero e h = omega arith
advance_lem (suc k) e h =
    omega (arith, advance_lem k (invalidate e) (invalidate-IsEpoch e h), invalidate_lem e h)

pub advance-IsEpoch : (k e : ℕ) → IsEpoch e → IsEpoch (advance k e)
unfolding advance
advance-IsEpoch zero e h = h
advance-IsEpoch (suc k) e h = advance-IsEpoch k (invalidate e) (invalidate-IsEpoch e h)

-- Fewer invalidations than the cycle is long never come back to the epoch that they started from.
pub advance-ne : (k e : ℕ) → IsEpoch e → 0 < k → k < cycle → advance k e ≢ e
advance-ne k e h lo hi same = omega (arith, advance_lem k e h)
