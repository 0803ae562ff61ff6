-- ===== src/Envelope/Valid.antt =====
-- What every envelope that is made satisfies, and which arguments are refused.
use message_broker_patterns.Base.{
  ◌≡◌, refl, Bool, true, false, arith, eq_iff, if◌then◌else◌, str_eq, ap,
}
use message_broker_patterns.Base.Exec.{Exn, Result, ok, err, value_error}
use message_broker_patterns.Base.Results.{◌>>=◌}
use message_broker_patterns.Envelope.{Python, Laws, Envelope, post_init, normalised, collides}

-- An envelope as the rest of the program may take it to be.
pub record IsValid (py : Python) (e : Envelope py) : Type 0 where
  pub is_aware : py.is_aware e.occurred_at ≡ true
  pub is_utc : py.astimezone_utc e.occurred_at ≡ ok e.occurred_at
  pub no_collision : collides e.payload ≡ false
  pub is_root : e.correlation_id ≡ "" → e.message_id ≡ ""

-- The arguments and the envelope that is made of them.
pub record Normalised (py : Python) (e made : Envelope py) : Type 0 where
  pub same_id : made.message_id ≡ e.message_id
  pub same_cause : made.causation_id ≡ e.causation_id
  pub same_payload : made.payload ≡ e.payload
  pub in_utc : py.astimezone_utc e.occurred_at ≡ ok made.occurred_at
  pub root : e.correlation_id ≡ "" → made.correlation_id ≡ e.message_id
  pub not_root : str_eq e.correlation_id "" ≡ false → made.correlation_id ≡ e.correlation_id

pub data Outcome (py : Python) (e : Envelope py) : Result (Envelope py) → Type 0 where
  naive : py.is_aware e.occurred_at ≡ false → Outcome py e (err value_error)
  collision :
      py.is_aware e.occurred_at ≡ true → collides e.payload ≡ true → Outcome py e (err value_error)
  beyond :
      (exc : Exn)
      → py.is_aware e.occurred_at ≡ true
      → collides e.payload ≡ false
      → py.astimezone_utc e.occurred_at ≡ err exc
      → Outcome py e (err exc)
  accepted :
      py.is_aware e.occurred_at ≡ true
      → collides e.payload ≡ false
      → (made : Envelope py) → Normalised py e made
      → IsValid py made
      → Outcome py e (ok made)

module _ (py : Python) (laws : Laws py) where
  -- The constructor refuses a naive datetime and a payload with a header's key, each with a
  -- ValueError, and otherwise an instant that cannot be converted to UTC, with what the conversion
  -- raises. Of all other arguments it makes a valid envelope: the instant is in UTC, an empty
  -- correlation id becomes the message's id, and the rest is kept.
  pub post_init-Outcome : (e : Envelope py) → Outcome py e (post_init py e)
  unfolding post_init normalised
  post_init-Outcome e =
      split (py.is_aware e.occurred_at) refl (collides e.payload) refl
        (py.astimezone_utc e.occurred_at) refl
    where
      split :
          (a : Bool)
          → py.is_aware e.occurred_at ≡ a
          → (c : Bool) → collides e.payload ≡ c
          → (r : Result py.Datetime) → py.astimezone_utc e.occurred_at ≡ r
          → Outcome py e (
              if a
              then if c then err value_error else (r >>= (λ utc. ok (normalised py e utc)))
              else err value_error)
      split false h c k r u = naive h
      split true h true k r u = collision h k
      split true h false k (err exc) u = beyond exc h k u
      split true h false k (ok utc) u =
          accepted h k (normalised py e utc)
            (record {
              same_id = refl;
              same_cause = refl;
              same_payload = refl;
              in_utc = u;
              root = λ empty. ground (arith, eq_iff e.correlation_id "");
              not_root = λ full. rw full;
            })
            (record {
              is_aware = laws.utc_aware e.occurred_at utc u;
              is_utc = laws.utc_again e.occurred_at utc u;
              no_collision = k;
              is_root = λ empty. ground (arith, eq_iff e.correlation_id "");
            })

  -- An envelope that is valid is made again as it is.
  pub post_init_valid : (e : Envelope py) → IsValid py e → post_init py e ≡ ok e
  unfolding post_init normalised
  post_init_valid e v =
      rw (v.is_aware, v.no_collision, v.is_utc)
        (ap (λ id. ok (record e { correlation_id = id })) same_root)
    where
      same_root :
          (if str_eq e.correlation_id "" then e.message_id else e.correlation_id) ≡ e.correlation_id
      same_root = ground (arith, eq_iff e.correlation_id "", v.is_root)
