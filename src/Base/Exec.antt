-- ===== src/Base/Exec.antt =====
-- A Python call that reads and writes a state and may raise. What was written before a raise stays
-- written, so the state comes back beside the exception too.
use Prim.Native.String.{String}
use mathlib.Core.Path.{◌≡◌, refl}
use mathlib.Core.Option.{Option, none, some}
use mathlib.Core.Bool.{Bool, true, false}

-- The exceptions that the sources raise, and any other `Exception` by its class name. `cancelled`
-- stands for what is no `Exception` (`asyncio.CancelledError`, `KeyboardInterrupt`).
pub data Exn : Type 0 where
  value_error key_error type_error : Exn
  insufficient_funds account_not_found : Exn
  payload_not_found message_too_large : Exn
  broker_unavailable consumer_crash integrity_error : Exn
  payment_declined shipping_unavailable : Exn
  response_error : String → Exn
  other : String → Exn
  cancelled : Exn

-- type(exc).__name__
unfoldable pub type_name : Exn → String
type_name value_error = "ValueError"
type_name key_error = "KeyError"
type_name type_error = "TypeError"
type_name insufficient_funds = "InsufficientFundsError"
type_name account_not_found = "AccountNotFoundError"
type_name payload_not_found = "PayloadNotFoundError"
type_name message_too_large = "MessageTooLargeError"
type_name broker_unavailable = "BrokerUnavailableError"
type_name consumer_crash = "ConsumerCrashError"
type_name integrity_error = "IntegrityError"
type_name payment_declined = "PaymentDeclinedError"
type_name shipping_unavailable = "ShippingUnavailableError"
type_name (response_error text) = "ResponseError"
type_name (other name) = name
type_name cancelled = "CancelledError"

pub data Result (A : Type 0) : Type 0 where
  ok : A → Result A
  err : Exn → Result A

abbrev pub Exec : Type 0 → Type 0 → Type 0
Exec S A = S → Result A × S

module _ {S A : Type 0} where
  abbrev pub pure : A → Exec S A
  pure a s = (ok a, s)

  abbrev pub raise : Exn → Exec S A
  raise e s = (err e, s)

  abbrev pub gets : (S → A) → Exec S A
  gets f s = (ok (f s), s)

  abbrev pub or_raise : Option A → Exn → Exec S A
  or_raise none e s = (err e, s)
  or_raise (some a) e s = (ok a, s)

  abbrev pub lift : Result A → Exec S A
  lift r s = (r, s)

module _ {S : Type 0} where
  abbrev pub modify : (S → S) → Exec S (Unit {0})
  modify f s = (ok tt, f s)

  abbrev pub raise_if : Bool → Exn → Exec S (Unit {0})
  raise_if true e s = (err e, s)
  raise_if false e s = (ok tt, s)

module _ {S A B : Type 0} where
  abbrev pub and_then : (A → Exec S B) → Result A × S → Result B × S
  and_then f (ok a, s) = f a s
  and_then f (err e, s) = (err e, s)

  infixl 5 ◌>>=◌ ◌>>◌
  abbrev pub ◌>>=◌ : Exec S A → (A → Exec S B) → Exec S B
  ◌>>=◌ m f s = and_then f (m s)

  abbrev pub ◌>>◌ : Exec S A → Exec S B → Exec S B
  ◌>>◌ m k s = and_then (λ _. k) (m s)

-- A call on a part of the state, such as the client that an object holds.
module _ {S C A : Type 0} (part : S → C) (put : C → S → S) where
  abbrev pub zoom : Exec C A → Exec S A
  zoom m s = let (r, c) = m (part s) in (r, put c s)

-- How a call ends: what holds of its value and state if it returns, and of the state if it raises.
abbrev pub Ends {ℓ} : {S A : Type 0} → Result A × S → (A → S → Type ℓ) → (S → Type ℓ) → Type ℓ
Ends (ok a, s) Q E = Q a s
Ends (err e, s) Q E = E s

-- What holds of the value and the state of a call that returns.
abbrev pub Returns {ℓ} : {S A : Type 0} → Result A × S → (A → S → Type ℓ) → Type ℓ
Returns r P = Ends r P (λ _. Unit)

module _ {S A B C : Type 0} where
  pub and_then_assoc :
      (f : A → Exec S B) (g : B → Exec S C) (r : Result A × S)
      → and_then g (and_then f r) ≡ and_then (λ a s. and_then g (f a s)) r
  and_then_assoc f g (ok a, s) = refl
  and_then_assoc f g (err e, s) = refl

module _ {S A B : Type 0} where
  pub Ends-and_then {ℓ κ} :
      (Q : A → S → Type ℓ) (R : B → S → Type κ) (D : S → Type ℓ) (E : S → Type κ) (f : A → Exec S B)
      (r : Result A × S)
      → Ends r Q D
      → ((a : A) (s : S) → Q a s → Ends (f a s) R E)
      → ((s : S) → D s → E s)
      → Ends (and_then f r) R E
  Ends-and_then Q R D E f (ok a, s) h k e = k a s h
  Ends-and_then Q R D E f (err x, s) h k e = e s h

module _ {S A : Type 0} where
  pub Ends-imp {ℓ κ} :
      (Q : A → S → Type ℓ) (R : A → S → Type κ) (D : S → Type ℓ) (E : S → Type κ) (r : Result A × S)
      → Ends r Q D
      → ((a : A) (s : S) → Q a s → R a s)
      → ((s : S) → D s → E s)
      → Ends r R E
  Ends-imp Q R D E (ok a, s) h k e = k a s h
  Ends-imp Q R D E (err x, s) h k e = e s h

  pub Returns-imp {ℓ κ} :
      (Q : A → S → Type ℓ) (R : A → S → Type κ) (r : Result A × S)
      → Returns r Q
      → ((a : A) (s : S) → Q a s → R a s)
      → Returns r R
  Returns-imp Q R r h k = Ends-imp Q R (λ _. Unit) (λ _. Unit) r h k (λ _ _. tt)

module _ {S A B : Type 0} where
  pub Returns-and_then {ℓ κ} :
      (Q : A → S → Type ℓ) (R : B → S → Type κ) (f : A → Exec S B) (r : Result A × S)
      → Returns r Q
      → ((a : A) (s : S) → Q a s → Returns (f a s) R)
      → Returns (and_then f r) R
  Returns-and_then Q R f r h k = Ends-and_then Q R (λ _. Unit) (λ _. Unit) f r h k (λ _ _. tt)

module _ {S C A : Type 0} where
  -- A call on a part of the state, by what is known of the part.
  pub zoom-Ends {ℓ κ} :
      (P : A → C → Type ℓ) (Q : A → S → Type κ) (E : S → Type κ) (part : S → C) (put : C → S → S)
      (s : S) (m : Exec C A)
      → Returns (m (part s)) P
      → ((a : A) (c : C) → P a c → Q a (put c s))
      → ((c : C) → E (put c s))
      → Ends (zoom part put m s) Q E
  zoom-Ends P Q E part put s m h q e = go (m (part s)) h
    where
      go : (r : Result A × C) → Returns r P → Ends {A = A} (r.0, put r.1 s) Q E
      go (ok a, c) p = q a c p
      go (err x, c) p = e c
