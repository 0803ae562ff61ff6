-- ===== src/Chaos/Tests.antt =====
-- The theorem on fault injection at a concrete input.
use message_broker_patterns.Base.{ℕ, ◌+◌, ◌≡◌, [], ◌∷◌, ltb, leb}
use message_broker_patterns.Base.Exec.{Exec, ok}
use message_broker_patterns.Chaos.{Random, on_call, duplicate_delivery, Injector, invoke_all}
use message_broker_patterns.Chaos.OnCall.{run_calls, faulty_at, invoke_all-on_call}

-- A generator that always draws 0.
abbrev zeros : Random
zeros = record {
  Float = ℕ;
  State = Unit;
  random = λ s. (0, s);
  ltb = ltb;
  in_unit = λ p. leb p 1;
  finite_positive = λ x. ltb 0 x;
}

-- Adds its argument to the world.
abbrev adding : ℕ → Exec ℕ ℕ
adding n w = (ok n, w + n)

abbrev start : Injector zeros ℕ
start = record { calls = 0; fires = 0; rng = tt; world = 0 }

invoke_all-on_call_example :
    invoke_all zeros (λ l w. w) (on_call 2) duplicate_delivery adding (10 ∷ 20 ∷ 30 ∷ []) start ≡ (
      let (rs, w) =
        run_calls
          (faulty_at zeros (λ l w. w) 2 duplicate_delivery adding)
          1
          (10 ∷ 20 ∷ 30 ∷ [])
          0 in
      (rs, record { calls = 3; fires = 1; rng = tt; world = w }))
invoke_all-on_call_example =
    invoke_all-on_call zeros (λ l w. w) 2 duplicate_delivery adding (10 ∷ 20 ∷ 30 ∷ []) start
