-- ===== src/Idempotency/Shared/Tests.antt =====
-- The theorems on the shared store at concrete inputs, on a server that is its one set.
use message_broker_patterns.Base.{
  ℕ, ◌+◌, ◌/◌, ◌<◌, ◌≡◌, refl, true, false, Option, none, some, [], ◌∷◌, List, if◌then◌else◌, arith,
}
use message_broker_patterns.Base.Int.{ℤ, pos, negsuc}
use message_broker_patterns.Base.Exec.{ok, err, value_error, Returns, and_then}
use message_broker_patterns.Redis.View.{as_count}
use message_broker_patterns.Idempotency.{validate_ttl}
use message_broker_patterns.Idempotency.Shared.{new_store, mark_if_new}
use message_broker_patterns.Idempotency.Shared.Commands.{
  Client, Laws, Window, live, has, added, with_deadline,
}
use message_broker_patterns.Idempotency.Shared.Refinement.{nothing}
use message_broker_patterns.Idempotency.Shared.History.{
  Call, check, mark, claim, run, spec_run, run-refines,
}
use message_broker_patterns.Idempotency.Shared.Rivals.{
  on, Keeps, one_claim_in_window, mark_if_new-Holds,
}
use message_broker_patterns.Idempotency.Shared.Truncation.{sub_millisecond_forgets}

-- Exact division, which drops the rest.
abbrev whole : ℤ → ℕ
whole (pos n) = n / 1000
whole (negsuc n) = 0

none_left : (n : ℕ) → n < 1000 → n / 1000 ≡ 0
none_left n h = omega arith

abbrev one_set : Client
one_set = record {
  State = Option Window;
  view = λ s key. s;
  milliseconds = whole;
  sadd = λ now key m s.
      (ok (as_count (if has m (live now s) then false else true)), some (added m (live now s)));
  sismember = λ now key m s. (ok (as_count (has m (live now s))), live now s);
  pexpire_nx = λ now key ttl s. (ok 1, with_deadline (now + whole ttl) (live now s));
}

one_set_laws : Laws one_set
one_set_laws = record {
  milliseconds_lem = none_left;
  sadd_lem = λ now key m s. (refl, refl);
  sismember_lem = λ now key m s. (refl, refl);
  pexpire_nx_lem = λ now key ttl s. refl;
}

-- Sixty seconds.
abbrev minute : ℤ
minute = pos 60000000

abbrev calls : List Call
calls =
    claim "m1" 10 11
    ∷ check "m1" 20
    ∷ claim "m2" 30 31
    ∷ mark "m1" 40 40
    ∷ claim "m1" 70000 70001
    ∷ []

run-refines_example :
    Returns
      (run one_set (on "done" minute) calls none)
      (λ answers _. answers ≡ spec_run 60000 calls nothing)
run-refines_example =
    run-refines one_set_laws (on "done" minute) calls 0 none
      (
        (omega arith, omega arith),
        (
          omega arith,
          (
            (omega arith, omega arith),
            ((omega arith, omega arith), ((omega arith, omega arith), tt)),
          ),
        ),
      )
      refl

-- Another process, with half the ttl, marks another key between the two commands.
abbrev rival : Option Window → Option Window
rival s = (mark_if_new one_set (on "done" (pos 30000000)) "m2" 12 (λ t. t) 13 s).1

rival-Keeps : Keeps one_set_laws "done" "m1" 29000 rival
unfolding mark_if_new
rival-Keeps t held =
    (mark_if_new-Holds one_set_laws "done" "m1" 29000 "m2" (pos 30000000) 12 13 (λ t. t) t
      (omega arith, omega arith, omega arith) (λ u h. h) held).1

one_claim_in_window_example :
    Returns
      (and_then
        (λ _ t. mark_if_new one_set (on "done" minute) "m1" 500 (λ t. t) 501 (rival t))
        (mark_if_new one_set (on "done" minute) "m1" 10 rival 14 none))
      (λ won _. won ≡ false)
one_claim_in_window_example =
    one_claim_in_window one_set_laws "done" "m1" 29000 minute minute 10 14 500 501 rival rival
      (λ t. t) none (omega arith, omega arith, omega arith) (omega arith) rival-Keeps rival-Keeps tt

sub_millisecond_forgets_example :
    Returns
      (and_then
        (λ _. mark_if_new one_set (on "done" (pos 500)) "m1" 20 (λ t. t) 21)
        (mark_if_new one_set (on "done" (pos 500)) "m1" 10 (λ t. t) 11 none))
      (λ won _. won ≡ true)
unfolding new_store validate_ttl
sub_millisecond_forgets_example =
    sub_millisecond_forgets one_set_laws "done" "m1" 500 (on "done" (pos 500)) 10 11 20 21 none
      (omega arith) refl (omega arith) refl

-- A ttl that is not positive is refused.
zero_refused : new_store "done" (pos 0) ≡ err value_error
unfolding new_store validate_ttl
zero_refused = refl
