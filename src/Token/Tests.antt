-- ===== src/Token/Tests.antt =====
-- Runs of the operations on a token.
use fido_touch.Prelude.{
  ◌+◌, ◌≡◌, refl, ◌&&◌, true, false, [], ◌∷◌, replicate, arith, ltb, if◌then◌else◌,
}
use fido_touch.Token.{Session, issue, tick, transport_time_limit, bind_rp, get_user_present}
use fido_touch.Token.Authority.{bind, read_present, run, step, Within, same_epoch-Within}
use fido_touch.Token.Expiry.{tick-issue, tick-issue_near_wrap}

abbrev verified : Session
verified = record {
  token = replicate 32 9;
  in_use = true;
  permissions = 3;
  rp_id_hash = replicate 32 0;
  has_rp_id = false;
  user_present = false;
  user_verified = true;
  usage_timer = 5;
  initial_usage_time_limit = 5;
  user_present_time_limit = 0;
  epoch = 1;
}

same_epoch : (run (bind (replicate 32 1) ∷ (read_present ∷ [])) verified).epoch ≡ 1
unfolding run step bind_rp get_user_present
same_epoch = refl

same_epoch-Within_example :
    Within verified (run (bind (replicate 32 1) ∷ (read_present ∷ [])) verified)
same_epoch-Within_example =
    same_epoch-Within (bind (replicate 32 1) ∷ (read_present ∷ [])) verified
      (omega arith, omega arith) (omega arith) same_epoch

tick-issue_example :
    let before = issue (replicate 32 4) 1000 3 true (replicate 32 6) verified in
    let after = tick 9000 before in
    let alive = ltb 9000 (1000 + transport_time_limit) in
    (after.in_use ≡ alive)
    × (after.permissions ≡ (if alive then before.permissions else 0))
    × (after.has_rp_id ≡ (alive && true))
    × (after.user_verified ≡ alive)
tick-issue_example =
    tick-issue (replicate 32 4) 3 true (replicate 32 6) 1000 9000 verified (omega arith)
      (omega arith) (omega arith)

tick-issue_near_wrap_example :
    let after =
      tick 4294967200 (issue (replicate 32 4) 4294967100 3 true (replicate 32 6) verified) in
    (after.in_use ≡ false) × (after.permissions ≡ 0)
tick-issue_near_wrap_example =
    tick-issue_near_wrap (replicate 32 4) 3 true (replicate 32 6) 4294967100 4294967200 verified
      (omega arith) (omega arith) (omega arith)
