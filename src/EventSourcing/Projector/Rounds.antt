-- ===== src/EventSourcing/Projector/Rounds.antt =====
-- A round of the polling loop on a server that answers: the loop ends caught up, or goes on.
use message_broker_patterns.Base.{
  ℕ, ◌+◌, String, ◌≡◌, refl, sym, ap, ◌∙◌, subst, Bool, true, false, List, [], ◌++◌, append_assoc,
  append-nil, take-append-drop, take, drop, leb, leb→le, length, length-append, if◌then◌else◌,
  arith,
}
use message_broker_patterns.Base.Exec.{Exec, Result, ok, err, and_then, Returns}
use message_broker_patterns.Redis.{Redis, Laws, IsUp}
use message_broker_patterns.Redis.View.{Entry, Server}
use message_broker_patterns.EventSourcing.Events.{account_stream}
use message_broker_patterns.EventSourcing.Projector.{Projection, new_summary, poll}
use message_broker_patterns.EventSourcing.Projector.Agreement.{apply_all}
use message_broker_patterns.EventSourcing.Projector.CatchUp.{Folded, poll-Folded}
use message_broker_patterns.EventSourcing.Projector.Success.{
  apply_all-version, IsOk, length-map, empty, apply_all-version, bodies,
}
use message_broker_patterns.EventSourcing.Projector.Polls.{Ahead, poll-IsOk}

module _ {r : Redis} (laws : Laws r) (up : IsUp r) (account_id : String)
    (expected_version : ℕ) where
  -- Between the polls the others leave the server as it is.
  abbrev pub Quiet : (r.State → r.State) → Type 0
  Quiet others = (c : r.State) → r.view (others c) ≡ r.view c

  pub version_of :
      (s : Projection r) (seen rest : List Entry)
      → Folded account_id s seen rest
      → s.summary.version ≡ length seen
  unfolding bodies
  version_of s seen rest h =
      apply_all-version (bodies seen) (new_summary account_id) s.summary h.2
      ∙ omega (arith, length-map (λ (e : Entry). e.1) seen)

  unfoldable pub CaughtUp : List Entry → Result Bool × Projection r → Type 0
  CaughtUp es x = (x.0 ≡ ok true) × Folded account_id x.1 es []

  pub split_lengths :
      (seen rest : List Entry)
      → length (seen ++ rest) ≡ length (seen ++ take 100 rest) + length (drop 100 rest)
  split_lengths seen rest =
      ap (λ es. length (seen ++ es)) (sym (take-append-drop 100 rest))
      ∙ omega (
        arith,
        length-append seen (take 100 rest ++ drop 100 rest),
        length-append (take 100 rest) (drop 100 rest),
        length-append seen (take 100 rest),
      )

  pub rejoined : (seen rest : List Entry) → (seen ++ take 100 rest) ++ drop 100 rest ≡ seen ++ rest
  rejoined seen rest =
      append_assoc seen (take 100 rest) (drop 100 rest)
      ∙ ap (λ es. seen ++ es) (take-append-drop 100 rest)

  -- What follows a poll: the loop ends, or goes on with `again`.
  unfoldable pub after_poll : Exec (Projection r) Bool → Exec (Projection r) Bool
  after_poll again t =
      (if leb expected_version t.summary.version then (λ u. (ok true, u)) else again) t

  ends_or_again :
      (seen rest : List Entry) (t : Projection r) (again : Exec (Projection r) Bool)
      → expected_version ≡ length (seen ++ rest)
      → Ahead laws up account_id expected_version t (seen ++ take 100 rest) (drop 100 rest)
      → (leb expected_version t.summary.version ≡ false → CaughtUp (seen ++ rest) (again t))
      → CaughtUp (seen ++ rest) (after_poll again t)
  unfolding after_poll CaughtUp Ahead
  ends_or_again seen rest t again v h k = go (leb expected_version t.summary.version) refl
    where
      all_seen : leb expected_version t.summary.version ≡ true → drop 100 rest ≡ []
      all_seen e = empty (drop 100 rest) (
          omega (
            arith,
            leb→le expected_version t.summary.version e,
            version_of t (seen ++ take 100 rest) (drop 100 rest) h.0,
            split_lengths seen rest,
            v,
          ))

      go :
          (b : Bool)
          → leb expected_version t.summary.version ≡ b
          → CaughtUp (seen ++ rest) ((if b then (λ u. (ok true, u)) else again) t)
      go false e = k e
      go true e =
          let none_left = all_seen e in
          let joined =
            sym (append-nil (seen ++ take 100 rest))
            ∙ ap (λ es. (seen ++ take 100 rest) ++ es) (sym none_left)
            ∙ rejoined seen rest in
          (
            refl,
            subst (λ es. Folded account_id t es []) joined
                (subst (Folded account_id t (seen ++ take 100 rest)) none_left h.0),
          )

  pub loop_step :
      (others : r.State → r.State) (s : Projection r) (seen rest : List Entry)
      (again : Exec (Projection r) Bool)
      → Quiet others
      → Ahead laws up account_id expected_version s seen rest
      → expected_version ≡ length (seen ++ rest)
      → ((t : Projection r)
          → Ahead laws up account_id expected_version t (seen ++ take 100 rest) (drop 100 rest)
          → leb expected_version t.summary.version ≡ false
          → CaughtUp (seen ++ rest) (again t))
      → CaughtUp (seen ++ rest) (
          and_then
            (λ _. after_poll again)
            (poll account_id expected_version
              (record s { process = record s.process { client = others s.process.client } })))
  unfolding Ahead
  loop_step others s seen rest again q h v k =
      go (poll account_id expected_version before)
        (poll-IsOk laws up account_id expected_version before seen rest ahead)
        (poll-Folded laws account_id expected_version before seen rest ahead.0)
    where
      before : Projection r
      before = record s { process = record s.process { client = others s.process.client } }

      ahead : Ahead laws up account_id expected_version before seen rest
      ahead = (
        (
          ap (λ (w : Server). w.entries (account_stream account_id)) (q s.process.client) ∙ h.0.0,
          h.0.1,
          h.0.2,
        ),
        h.1,
      )

      go :
          (x : Result Unit × Projection r)
          → IsOk x
          → Returns x (λ _ t. Folded account_id t (seen ++ take 100 rest) (drop 100 rest))
          → CaughtUp (seen ++ rest) (and_then (λ _. after_poll again) x)
      go (ok u, t) j folded =
          let there : Ahead laws up account_id expected_version t (seen ++ take 100 rest)
              (drop 100 rest) =
            (
              folded,
              subst (λ es. IsOk (apply_all (bodies es) (new_summary account_id)))
                  (sym (rejoined seen rest)) h.1,
            ) in
          ends_or_again seen rest t again v there (k t there)
      go (err e, t) j folded = absurd j
