-- ===== src/EventSourcing/Projector/Polls.antt =====
-- One poll on a server that answers returns, if what is still to come folds without an error.
use message_broker_patterns.Base.{
  ℕ, String, ◌≡◌, sym, ap, ◌∙◌, subst, List, ◌++◌, map-append, take-append-drop, take, drop,
}
use message_broker_patterns.Base.Exec.{Result, ok, err, and_then, Returns}
use message_broker_patterns.Redis.{Redis, Laws, IsUp, Succeeds}
use message_broker_patterns.Redis.View.{Entry}
use message_broker_patterns.Process.{Process, see}
use message_broker_patterns.EventSourcing.Events.{account_stream}
use message_broker_patterns.EventSourcing.Store.{read}
use message_broker_patterns.EventSourcing.Projector.{Projection, new_summary, apply_entries, poll}
use message_broker_patterns.EventSourcing.Projector.Agreement.{apply_all}
use message_broker_patterns.EventSourcing.Projector.CatchUp.{Folded, apply_all-append, read_lem}
use message_broker_patterns.EventSourcing.Projector.Success.{
  IsOk, first-IsOk, bodies, apply_entries-IsOk,
}

module _ {r : Redis} (laws : Laws r) (up : IsUp r) (account_id : String)
    (expected_version : ℕ) where
  read-IsOk : (s : Projection r) → IsOk (read account_id s.last_id s.process)
  unfolding read
  read-IsOk s =
      go (r.xread (account_stream account_id) s.last_id 100 s.process.client)
        (up.xread_up (account_stream account_id) s.last_id 100 s.process.client)
    where
      go :
          (x : Result (List Entry) × r.State)
          → Succeeds x
          → IsOk {A = List Entry} (x.0, record s.process { client = x.1 })
      go (ok es, c) h = tt
      go (err e, c) h = h

  -- What is folded, and what is still to fold without an error.
  unfoldable pub Ahead : Projection r → List Entry → List Entry → Type 0
  Ahead s seen rest =
      Folded account_id s seen rest
      × IsOk (apply_all (bodies (seen ++ rest)) (new_summary account_id))

  rest-IsOk :
      (s : Projection r) (seen rest : List Entry)
      → Ahead s seen rest
      → IsOk (apply_all (bodies rest) s.summary)
  unfolding Ahead bodies
  rest-IsOk s seen rest h =
      subst IsOk
        (ap (λ fs. apply_all fs (new_summary account_id))
            (map-append (λ (e : Entry). e.1) seen rest)
          ∙ apply_all-append (bodies seen) (bodies rest) (new_summary account_id)
          ∙ ap (and_then (λ _. apply_all (bodies rest))) h.0.2)
        h.1

  pub poll-IsOk :
      (s : Projection r) (seen rest : List Entry)
      → Ahead s seen rest
      → IsOk (poll account_id expected_version s)
  unfolding poll bodies
  poll-IsOk s seen rest h =
      go (read account_id s.last_id s.process) (read-IsOk s)
        (read_lem laws account_id expected_version s seen rest (unfold Ahead in h.0))
        (first-IsOk (λ _. apply_all (bodies (drop 100 rest)))
          (apply_all (bodies (take 100 rest)) s.summary)
          (subst IsOk
            (ap (λ es. apply_all (bodies es) s.summary) (sym (take-append-drop 100 rest))
              ∙ ap (λ fs. apply_all fs s.summary)
                  (map-append (λ (e : Entry). e.1) (take 100 rest) (drop 100 rest))
              ∙ apply_all-append (bodies (take 100 rest)) (bodies (drop 100 rest)) s.summary)
            (rest-IsOk s seen rest h)))
    where
      go :
          (x : Result (List Entry) × Process r)
          → IsOk x
          → Returns x (λ es q. (es ≡ take 100 rest) × (see q ≡ see s.process))
          → IsOk (apply_all (bodies (take 100 rest)) s.summary)
          → IsOk (
              and_then
                (apply_entries account_id expected_version)
                (x.0, record s { process = x.1 }))
      go (ok es, q) k (e, same) good = rw e (
          apply_entries-IsOk account_id expected_version (take 100 rest) (record s { process = q })
            good)
      go (err e, q) k j good = absurd k
