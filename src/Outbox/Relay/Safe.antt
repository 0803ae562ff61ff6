-- ===== src/Outbox/Relay/Safe.antt =====
-- The relay against its database: `relay.run` keeps what NoLoss states, on every way it can end.
use message_broker_patterns.Base.{
  String, ◌≡◌, ◌⊎◌, sym, ap, ◌∙◌, subst, Bool, true, ◌||◌, some, List, [], ◌∷◌, ◌++◌, take, drop,
  take-append-drop, All, arith, eq_iff, inl, inr,
}
use message_broker_patterns.Base.Dict.{lookup}
use message_broker_patterns.Base.Exec.{Result, ok, err, and_then, Ends, Ends-and_then, Returns}
use message_broker_patterns.Metrics.{Registry, increment}
use message_broker_patterns.Redis.{Redis, Laws}
use message_broker_patterns.Redis.View.{Fields, Entry, Server, with_entry}
use message_broker_patterns.Process.{see}
use message_broker_patterns.Floats.{Floats}
use message_broker_patterns.Outbox.{
  OutboxEntry, poll_outbox, delete_outbox_entry, str_payload, without_id,
}
use message_broker_patterns.Outbox.Relay.{
  Relay, publish, relay_entry, relay_entries, relay_round, run,
}
use message_broker_patterns.Outbox.Relay.NoLoss.{
  published, published-append, has_entry, IsQueue, Covered, without_id-first, IsQueue-tail,
}

covered-more :
    (o : String) (here : Bool) (messages : List Entry) (m : Entry)
    → (here || published o messages) ≡ true
    → (here || published o (messages ++ m ∷ [])) ≡ true
covered-more o here messages m h = ground (arith, h, published-append o messages m)

pub after_with_entry :
    (stream id : String) (f : Fields) (v w : Server)
    → w ≡ with_entry stream (id, f) v
    → w.entries stream ≡ v.entries stream ++ (id, f) ∷ []
after_with_entry stream id f v w k =
    ground (arith, ap (λ u. u.entries stream) k, eq_iff stream stream)

module _ {fl : Floats} {r : Redis} (laws : Laws r) (stream : String) where
  abbrev pub IsSafe : Relay fl r → Type 0
  IsSafe s =
      IsQueue fl 0 s.db.next_id s.db.outbox × Covered fl s.db ((see s.process).entries stream)

  -- The message takes over from the row.
  covered-moved :
      (o : String) (e : OutboxEntry fl) (es : List (OutboxEntry fl)) (messages : List Entry)
      (m : Entry)
      → lookup "order_id" m.1 ≡ some e.order_id
      → (has_entry fl o (e ∷ es) || published o messages) ≡ true
      → (has_entry fl o es || published o (messages ++ m ∷ [])) ≡ true
  covered-moved o e es messages m named h = ground (arith, h, named, published-append o messages m)

  at_head :
      (s : Relay fl r) (e : OutboxEntry fl) (es : List (OutboxEntry fl))
      → IsSafe s
      → s.db.outbox ≡ e ∷ es
      → IsQueue fl 0 s.db.next_id (e ∷ es)
  at_head s e es safe at = subst (IsQueue fl 0 s.db.next_id) at safe.0

  published-IsSafe :
      (s : Relay fl r) (e : OutboxEntry fl) (es : List (OutboxEntry fl)) (id : String) (c : r.State)
      → IsSafe s
      → s.db.outbox ≡ e ∷ es
      → r.view c ≡ with_entry stream (id, str_payload fl e.payload) (see s.process)
      → IsSafe (record s { process = record s.process { client = c } })
  published-IsSafe s e es id c safe at k = (
    safe.0,
    λ o there.
        subst (λ ms. (has_entry fl o s.db.outbox || published o ms) ≡ true)
          (sym (after_with_entry stream id (str_payload fl e.payload) (see s.process) (r.view c) k))
          (covered-more o (has_entry fl o s.db.outbox) ((see s.process).entries stream)
            (id, str_payload fl e.payload) (safe.1 o there)),
  )

  deleted-IsSafe :
      (s : Relay fl r) (e : OutboxEntry fl) (es : List (OutboxEntry fl)) (id : String) (c : r.State)
      (metrics : Registry)
      → IsSafe s
      → s.db.outbox ≡ e ∷ es
      → r.view c ≡ with_entry stream (id, str_payload fl e.payload) (see s.process)
      → let s' : Relay fl r = record {
        db = delete_outbox_entry fl e.id s.db;
        process = record { client = c; metrics = metrics };
      } in
        IsSafe s' × (s'.db.outbox ≡ es)
  unfolding delete_outbox_entry
  deleted-IsSafe s e es id c metrics safe at k =
      let queue = at_head s e es safe at in
      let gone : without_id fl e.id s.db.outbox ≡ es =
        ap (without_id fl e.id) at ∙ without_id-first fl 0 s.db.next_id e es queue in
      (
        (
          subst (IsQueue fl 0 s.db.next_id) (sym gone) (IsQueue-tail fl 0 s.db.next_id e es queue),
          λ o there.
              rw
                (
                  gone,
                  after_with_entry stream id (str_payload fl e.payload) (see s.process) (r.view c)
                      k,
                )
                (covered-moved o e es ((see s.process).entries stream)
                  (id, str_payload fl e.payload) queue.2
                  (subst
                    (λ l. (has_entry fl o l || published o ((see s.process).entries stream)) ≡ true)
                    at (safe.1 o there))),
        ),
        gone,
      )

  relay_entry-IsSafe :
      (e : OutboxEntry fl) (es : List (OutboxEntry fl)) (s : Relay fl r)
      → IsSafe s
      → s.db.outbox ≡ e ∷ es
      → Ends
          (relay_entry {fl = fl} {r = r} stream e s)
          (λ _ s'. IsSafe s' × (s'.db.outbox ≡ es))
          IsSafe
  unfolding relay_entry publish
  relay_entry-IsSafe e es s safe at =
      go (r.xadd stream (str_payload fl e.payload) s.process.client)
        (laws.xadd_lem stream (str_payload fl e.payload) s.process.client)
        (laws.xadd_raised stream (str_payload fl e.payload) s.process.client)
    where
      go :
          (x : Result String × r.State)
          → Returns x
              (λ id c. r.view c ≡ with_entry stream (id, str_payload fl e.payload) (see s.process))
          → Ends x
              (λ _ _. Unit {0})
              (λ c.
                (r.view c ≡ see s.process)
                ⊎ ((id : String) × (r.view c
                      ≡ with_entry stream (id, str_payload fl e.payload) (see s.process))))
          → Ends
              (and_then
                (λ _ s. (
                  ok tt,
                  record s {
                    db = delete_outbox_entry fl e.id s.db;
                    process = record s.process {
                      metrics =
                          increment "transactional_outbox" "entries_relayed" 1 s.process.metrics;
                    };
                  },
                ))
                (x.0, record s { process = record s.process { client = x.1 } }))
              (λ _ s'. IsSafe s' × (s'.db.outbox ≡ es))
              IsSafe
      go (ok id, c) h k =
          deleted-IsSafe s e es id c
            (increment "transactional_outbox" "entries_relayed" 1 s.process.metrics) safe at h
      go (err x, c) h (inl k) = (safe.0, λ o there. rw (k) (safe.1 o there))
      go (err x, c) h (inr (id, k)) = published-IsSafe s e es id c safe at k

  relay_entries-IsSafe :
      (batch rest : List (OutboxEntry fl)) (s : Relay fl r)
      → IsSafe s
      → s.db.outbox ≡ batch ++ rest
      → Ends (relay_entries {fl = fl} {r = r} stream batch s) (λ _. IsSafe) IsSafe
  unfolding relay_entries
  relay_entries-IsSafe [] rest s safe at = safe
  relay_entries-IsSafe (e ∷ batch) rest s safe at =
      Ends-and_then (λ _ s'. IsSafe s' × (s'.db.outbox ≡ batch ++ rest)) (λ _. IsSafe) IsSafe IsSafe
        (λ _. relay_entries {fl = fl} {r = r} stream batch)
        (relay_entry {fl = fl} {r = r} stream e s) (relay_entry-IsSafe e (batch ++ rest) s safe at)
        (λ _ s' h. relay_entries-IsSafe batch rest s' h.0 h.1) (λ s' h. h)

  -- However long the relay runs beside others that keep the invariant, and whether it returns or is
  -- ended by an error of the server (an append that raised may have been applied), each committed
  -- order still has its row in the outbox or its message on the stream, the ids of the outbox still
  -- grow, and each row's payload names the row's order.
  pub run-IsSafe :
      (schedule : List (Relay fl r → Relay fl r)) (s : Relay fl r)
      → All (λ others. (t : Relay fl r) → IsSafe t → IsSafe (others t)) schedule
      → IsSafe s
      → Ends (run {fl = fl} {r = r} stream schedule s) (λ _. IsSafe) IsSafe
  unfolding run relay_round poll_outbox
  run-IsSafe [] s fair safe = safe
  run-IsSafe (others ∷ rest) s fair safe =
      let now = others s in
      let kept = fair.0 s safe in
      Ends-and_then (λ _. IsSafe) (λ _. IsSafe) IsSafe IsSafe
        (λ _. run {fl = fl} {r = r} stream rest)
        (relay_entries {fl = fl} {r = r} stream (take 10 now.db.outbox) now)
        (relay_entries-IsSafe (take 10 now.db.outbox) (drop 10 now.db.outbox) now kept
          (sym (take-append-drop 10 now.db.outbox)))
        (λ _ s' h. run-IsSafe rest s' fair.1 h) (λ s' h. h)
