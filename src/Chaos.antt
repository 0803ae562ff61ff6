-- ===== src/Chaos.antt =====
-- chaos.py: a call wrapped so that it sometimes injects a fault. `random.Random` is a parameter, as
-- are the floats; a call's ordinal and `on_call` are natural numbers.
pub mod OnCall
mod Tests
use message_broker_patterns.Base.{
  ℕ, zero, suc, ◌+◌, String, Bool, true, false, Option, none, some, List, [], ◌∷◌, ◌==◌,
  if◌then◌else◌,
}
use message_broker_patterns.Base.Exec.{
  Exec, Exn, value_error, Result, ok, err, raise, modify, zoom, ◌>>=◌, ◌>>◌,
}

-- random.Random, and the comparisons of floats that chaos.py makes.
pub record Random : Type 1 where
  pub Float : Type 0
  pub State : Type 0
  pub random : State → Float × State
  pub ltb : Float → Float → Bool
  -- 0.0 <= p <= 1.0
  pub in_unit : Float → Bool
  -- math.isfinite(x) and x > 0
  pub finite_positive : Float → Bool

module _ (rand : Random) where
  pub data FirePolicy : Type 0 where
    with_probability : rand.Float → FirePolicy
    on_call : ℕ → FirePolicy

  -- FirePolicy.__init__
  unfoldable pub fire_policy : Option rand.Float → Option ℕ → Result FirePolicy
  fire_policy (some p) (some n) = err value_error
  fire_policy none none = err value_error
  fire_policy (some p) none = if rand.in_unit p then ok (with_probability p) else err value_error
  fire_policy none (some zero) = err value_error
  fire_policy none (some (suc n)) = ok (on_call (suc n))

  unfoldable pub should_fire : FirePolicy → ℕ → rand.State → Bool × rand.State
  should_fire (with_probability p) ordinal rng =
      let (x, rng') = rand.random rng in (rand.ltb x p, rng')
  should_fire (on_call n) ordinal rng = (ordinal == n, rng)

  -- The subclasses of ChaosInjector.
  pub data Fault : Type 0 where
    broker_unavailable : Fault
    duplicate_delivery : Fault
    crash_before_ack : Fault
    slow_consumer : rand.Float → Fault

  -- SlowConsumer.__init__
  unfoldable pub slow : rand.Float → Result Fault
  slow latency =
      if rand.finite_positive latency then ok (slow_consumer latency) else err value_error

  -- The state of an injector, and the world that the wrapped call acts on.
  pub record Injector (W : Type 0) : Type 0 where
    pub calls : ℕ
    pub fires : ℕ
    pub rng : rand.State
    pub world : W

  abbrev pub on_world : {W B : Type 0} → Exec W B → Exec (Injector W) B
  on_world = zoom (λ s. s.world) (λ w s. record s { world = w })

  module _ {W A B : Type 0} (sleep : rand.Float → W → W) where
    -- _fire
    unfoldable pub fire : Fault → (A → Exec W B) → A → Exec W B
    fire broker_unavailable wrapped a = raise Exn.broker_unavailable
    fire duplicate_delivery wrapped a = do wrapped a; wrapped a
    fire crash_before_ack wrapped a = do wrapped a; raise Exn.consumer_crash
    fire (slow_consumer latency) wrapped a = do modify (sleep latency); wrapped a

    unfoldable pub fire_or_pass : Bool → Fault → (A → Exec W B) → A → Exec (Injector W) B
    fire_or_pass false fault wrapped a = on_world (wrapped a)
    fire_or_pass true fault wrapped a = do
      modify (λ s. record s { fires = s.fires + 1 })
      on_world (fire fault wrapped a)

    -- ChaosInjector.__call__
    unfoldable pub invoke : FirePolicy → Fault → (A → Exec W B) → A → Exec (Injector W) B
    invoke policy fault wrapped a s =
        let (fires_now, rng) = should_fire policy (suc s.calls) s.rng in
        fire_or_pass fires_now fault wrapped a (record s { calls = suc s.calls; rng = rng })

    -- A caller that makes the calls one after the other, and catches what they raise.
    unfoldable pub invoke_all :
        FirePolicy → Fault → (A → Exec W B) → List A → Injector W → List (Result B) × Injector W
    invoke_all policy fault wrapped [] s = ([], s)
    invoke_all policy fault wrapped (a ∷ xs) s =
        let (r, s') = invoke policy fault wrapped a s in
        let (rs, s'') = invoke_all policy fault wrapped xs s' in (r ∷ rs, s'')
