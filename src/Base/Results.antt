-- ===== src/Base/Results.antt =====
-- Chains of calls that return or raise and keep no state, and what is known of one that returned.
use mathlib.Core.Option.{Option, none, some}
use message_broker_patterns.Base.Exec.{Result, ok, err, Exn}

infixl 5 ◌>>=◌
abbrev pub ◌>>=◌ : {A B : Type 0} → Result A → (A → Result B) → Result B
ok a >>= f = f a
err e >>= f = err e

-- The value, or the exception where there is none.
abbrev pub or_err : {A : Type 0} → Exn → Option A → Result A
or_err e none = err e
or_err e (some a) = ok a
