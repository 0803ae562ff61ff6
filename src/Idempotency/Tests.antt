-- ===== src/Idempotency/Tests.antt =====
-- The theorems on the idempotency store at concrete inputs.
use message_broker_patterns.Base.{◌≡◌, refl, List, [], ◌∷◌, false, arith}
use message_broker_patterns.Base.Int.{ℤ, pos, ◌+ℤ◌}
use message_broker_patterns.Idempotency.{
  new_store, validate_ttl, mark_if_new, mark_processed, store_key, is_live, purge_expired,
}
use message_broker_patterns.Idempotency.Refinement.{Call, check, mark, claim, answer}
use message_broker_patterns.Idempotency.Claims.{
  run, spec_run, nothing, fresh, run-eq-spec_run, one_claim,
}

abbrev calls : List (ℤ × Call)
calls = (pos 1, claim "m1") ∷ (pos 2, check "m1") ∷ (pos 70, claim "m1") ∷ (pos 71, mark "m2") ∷ []

run-eq-spec_run_example : (run calls (fresh (pos 60))).0 ≡ (spec_run (pos 60) calls nothing).0
unfolding new_store validate_ttl
run-eq-spec_run_example =
    run-eq-spec_run (pos 60) (pos 0) calls (fresh (pos 60)) refl
      (omega arith, (omega arith, (omega arith, (omega arith, tt))))

abbrev before : List (ℤ × Call)
before = (pos 1, mark "m2") ∷ []

abbrev between : List (ℤ × Call)
between = (pos 20, check "m1") ∷ (pos 25, mark "m3") ∷ []

one_claim_example :
    (mark_if_new "m1"
      (pos 30)
      (run between (mark_if_new "m1" (pos 10) (run before (fresh (pos 60))).1).1).1).0
    ≡ false
unfolding new_store validate_ttl run answer mark_if_new mark_processed store_key is_live
    purge_expired ◌+ℤ◌
one_claim_example =
    one_claim (pos 60) (pos 0) (pos 10) (pos 30) "m1" before between (fresh (pos 60)) refl
      (omega arith, omega arith) (omega arith, (omega arith, omega arith)) refl refl
