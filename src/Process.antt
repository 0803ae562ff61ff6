-- ===== src/Process.antt =====
-- One Python process: its Redis client and the module-level registry `metrics.REGISTRY`; and the
-- group creation that the brokers share word for word.
use text.Mathlib.Text.{find?}
use message_broker_patterns.Base.{◌≡◌, refl, String, Bool, true, false, none, some, if◌then◌else◌}
use message_broker_patterns.Base.Exec.{Exec, response_error, Result, ok, err, zoom, Returns}
use message_broker_patterns.Metrics.{Registry, increment}
use message_broker_patterns.Redis.{Redis, Laws}
use message_broker_patterns.Redis.View.{Server, with_group}

pub record Process (r : Redis) : Type 0 where
  pub client : r.State
  pub metrics : Registry

-- `needle in text`
has_text : String → String → Bool
has_text text needle = elim (find? text needle) [ none ↦ false | some _ ↦ true ]

module _ {r : Redis} where
  -- await self._client.command(...)
  abbrev pub on_client : {A : Type 0} → Exec r.State A → Exec (Process r) A
  on_client = zoom (λ p. p.client) (λ c p. record p { client = c })

  -- REGISTRY.increment(pattern, key)
  abbrev pub count : String → String → Exec (Process r) Unit
  count pattern key p = (ok tt, record p { metrics = increment pattern key 1 p.metrics })

  -- Swallows the error that the group exists; any other is raised again.
  unfoldable pub busy_is_false : Result Unit × Process r → Result Bool × Process r
  unfolding has_text
  busy_is_false (ok _, p) = (ok true, p)
  busy_is_false (err (response_error text), p) =
      (if has_text text "BUSYGROUP" then ok false else err (response_error text), p)
  busy_is_false (err e, p) = (err e, p)

  -- `ensure_group`: XGROUP CREATE from id 0, with MKSTREAM.
  unfoldable pub ensure_group : String → String → Exec (Process r) Bool
  unfolding busy_is_false
  ensure_group stream group p = busy_is_false (on_client (r.xgroup_create stream group) p)

  -- What the process's server shows.
  abbrev pub see : Process r → Server
  see p = r.view p.client

  -- What a command does to the server, as a statement about the process.
  pub on_client-Returns {ℓ} :
      {A : Type 0} (F : A → Server → Type ℓ) (m : Exec r.State A) (p : Process r)
      → Returns (m p.client) (λ a c. F a (r.view c))
      → Returns (on_client m p) (λ a q. F a (see q))
  on_client-Returns {A} F m p h = go (m p.client) h
    where
      go :
          (x : Result A × r.State)
          → Returns x (λ a c. F a (r.view c))
          → Returns {A = A} (x.0, record p { client = x.1 }) (λ a q. F a (see q))
      go (ok a, c) k = k
      go (err e, c) k = tt

module _ {r : Redis} (laws : Laws r) where
  -- A group that is there stays as it was, and a new one changes no entry and no set.
  pub ensure_group_lem :
      (stream group : String) (p : Process r)
      → Returns
          (ensure_group stream group p)
          (λ b q. see q ≡ (if b then with_group stream group (see p) else see p))
  unfolding ensure_group
  ensure_group_lem stream group p =
      go (r.xgroup_create stream group p.client).0 (r.xgroup_create stream group p.client).1
        (laws.xgroup_create_lem stream group p.client)
        (λ text e. laws.xgroup_create_refused stream group text p.client e)
    where
      go :
          (x : Result Unit) (c : r.State)
          → Returns (x, c) (λ _ c'. r.view c' ≡ with_group stream group (see p))
          → ((text : String) → x ≡ err (response_error text) → r.view c ≡ see p)
          → Returns
              (busy_is_false (x, record p { client = c }))
              (λ b q. see q ≡ (if b then with_group stream group (see p) else see p))
      go (ok u) c h k = h
      go (err (response_error text)) c h k = settle (has_text text "BUSYGROUP")
        where
          settle :
              (b : Bool)
              → Returns {A = Bool}
                  ((if b then ok false else err (response_error text)), record p { client = c })
                  (λ b q. see q ≡ (if b then with_group stream group (see p) else see p))
          settle true = k text refl
          settle false = tt
      go (err e) c h k = tt
