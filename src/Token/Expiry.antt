-- ===== src/Token/Expiry.antt =====
-- How long a token lives.
use fido_touch.Prelude.{
  ℕ, ◌+◌, ◌^◌, ◌≤◌, ◌<◌, ◌≡◌, Bool, false, ◌&&◌, List, arith, ltb, if◌then◌else◌,
}
use fido_touch.Token.{
  Session, transport_time_limit, max_usage_time_period, clear_user_present, stop_using, tick, issue,
}

stop_using_lem :
    (s : Session)
    → ((stop_using s).in_use ≡ false)
      × ((stop_using s).permissions ≡ 0)
      × ((stop_using s).has_rp_id ≡ false)
      × ((stop_using s).user_verified ≡ false)
unfolding stop_using
stop_using_lem s = ground arith

clear_user_present_keeps :
    (s : Session)
    → ((clear_user_present s).in_use ≡ s.in_use)
      × ((clear_user_present s).permissions ≡ s.permissions)
      × ((clear_user_present s).has_rp_id ≡ s.has_rp_id)
      × ((clear_user_present s).user_verified ≡ s.user_verified)
unfolding clear_user_present
clear_user_present_keeps s = ground arith

-- A command that arrives at `now` finds a token that was issued at `t0`, while the clock has not
-- wrapped, alive exactly if fewer than 30 s have passed: alive it keeps its permissions, its
-- relying party and the verified flag, and dead it has none of them. (A token of the moment 0 is
-- left out: its timers read as stopped.)
pub tick-issue :
    (bytes : List ℕ) (permissions : ℕ) (has_rp : Bool) (rp : List ℕ) (t0 now : ℕ) (s : Session)
    → 0 < t0
    → t0 + max_usage_time_period < 2 ^ 32
    → t0 ≤ now
    → let before = issue bytes t0 permissions has_rp rp s in
      let after = tick now before in
      let alive = ltb now (t0 + transport_time_limit) in
      (after.in_use ≡ alive)
      × (after.permissions ≡ (if alive then before.permissions else 0))
      × (after.has_rp_id ≡ (alive && has_rp))
      × (after.user_verified ≡ alive)
unfolding issue tick
tick-issue bytes permissions has_rp rp t0 now s pos fits le = ground (
  arith,
  stop_using_lem (issue bytes t0 permissions has_rp rp s),
  clear_user_present_keeps (issue bytes t0 permissions has_rp rp s),
)

-- In the last ten minutes before `board_millis` wraps, a token is dead at the next command, however
-- soon that command arrives: the sum of the timer and the period wraps below the present.
pub tick-issue_near_wrap :
    (bytes : List ℕ) (permissions : ℕ) (has_rp : Bool) (rp : List ℕ) (t0 now : ℕ) (s : Session)
    → 2 ^ 32 ≤ t0 + max_usage_time_period
    → t0 < 2 ^ 32
    → t0 ≤ now
    → let after = tick now (issue bytes t0 permissions has_rp rp s) in
      (after.in_use ≡ false) × (after.permissions ≡ 0)
unfolding issue tick
tick-issue_near_wrap bytes permissions has_rp rp t0 now s near small le =
    ground (arith, stop_using_lem (issue bytes t0 permissions has_rp rp s))
