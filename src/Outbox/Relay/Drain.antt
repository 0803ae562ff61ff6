-- ===== src/Outbox/Relay/Drain.antt =====
-- The relay on a server that answers: it empties the outbox, in order.
use message_broker_patterns.Base.{
  ℕ, zero, suc, ◌+◌, ◌*◌, ◌≤◌, String, ◌≡◌, refl, sym, ap, ◌∙◌, subst, List, [], ◌∷◌, ◌++◌, map,
  take, drop, length, take-append-drop, append_assoc, append-nil, map-append, All, arith,
}
use message_broker_patterns.Base.Exec.{Result, ok, err, and_then, Returns}
use message_broker_patterns.Metrics.{increment}
use message_broker_patterns.Redis.{Redis, Laws, IsUp, Succeeds}
use message_broker_patterns.Redis.View.{Fields, Entry, Server, with_entry}
use message_broker_patterns.Process.{see}
use message_broker_patterns.Floats.{Floats}
use message_broker_patterns.Outbox.{
  OutboxEntry, Db, poll_outbox, delete_outbox_entry, str_payload, without_id,
}
use message_broker_patterns.Outbox.Relay.{
  Relay, publish, relay_entry, relay_entries, relay_round, run,
}
use message_broker_patterns.Outbox.Relay.NoLoss.{IsQueue, without_id-first, IsQueue-tail}
use message_broker_patterns.Outbox.Relay.Safe.{after_with_entry}

module _ {fl : Floats} {r : Redis} (laws : Laws r) (up : IsUp r) (stream : String) where
  -- The fields of the messages on the stream, oldest first.
  abbrev pub bodies : Relay fl r → List Fields
  bodies s = map (λ e. e.1) ((see s.process).entries stream)

  abbrev pub payloads : List (OutboxEntry fl) → List Fields
  payloads es = map (λ e. str_payload fl e.payload) es

  -- The call returns, `batch` has moved from the outbox to the stream and `rest` is left.
  abbrev Moved :
      Result Unit × Relay fl r → Relay fl r → List (OutboxEntry fl) → List (OutboxEntry fl) → Type 0
  Moved x s batch rest =
      (x.0 ≡ ok tt)
      × (x.1.db.outbox ≡ rest)
      × IsQueue fl 0 x.1.db.next_id rest
      × (bodies x.1 ≡ bodies s ++ payloads batch)

  relay_entry-Moved :
      (e : OutboxEntry fl) (rest : List (OutboxEntry fl)) (s : Relay fl r)
      → s.db.outbox ≡ e ∷ rest
      → IsQueue fl 0 s.db.next_id (e ∷ rest)
      → Moved (relay_entry {fl = fl} {r = r} stream e s) s (e ∷ []) rest
  unfolding relay_entry publish delete_outbox_entry
  relay_entry-Moved e rest s at queue =
      go (r.xadd stream (str_payload fl e.payload) s.process.client)
        (up.xadd_up stream (str_payload fl e.payload) s.process.client)
        (laws.xadd_lem stream (str_payload fl e.payload) s.process.client)
    where
      go :
          (x : Result String × r.State)
          → Succeeds x
          → Returns x
              (λ id c. r.view c ≡ with_entry stream (id, str_payload fl e.payload) (see s.process))
          → Moved
              (and_then
                (λ _ s. (
                  ok tt,
                  record s {
                    db = delete_outbox_entry fl e.id s.db;
                    process = record s.process {
                      metrics =
                          increment "transactional_outbox" "entries_relayed" 1 s.process.metrics;
                    };
                  },
                ))
                (x.0, record s { process = record s.process { client = x.1 } }))
              s
              (e ∷ [])
              rest
      go (ok id, c) h k = (
        refl,
        ap (without_id fl e.id) at ∙ without_id-first fl 0 s.db.next_id e rest queue,
        IsQueue-tail fl 0 s.db.next_id e rest queue,
        ap (map (λ (m : Entry). m.1))
              (after_with_entry stream id (str_payload fl e.payload) (see s.process) (r.view c) k)
            ∙ map-append (λ (m : Entry). m.1) ((see s.process).entries stream)
                ((id, str_payload fl e.payload) ∷ []),
      )
      go (err x, c) h k = absurd h

  goes_on :
      (k : Relay fl r → Result Unit × Relay fl r) (x : Result Unit × Relay fl r)
      → x.0 ≡ ok tt
      → and_then (λ _. k) x ≡ k x.1
  goes_on k (ok u, s) h = refl
  goes_on k (err e, s) h = ground arith

  -- One move after another.
  Moved-Moved :
      (x y : Result Unit × Relay fl r) (s : Relay fl r) (a b mid rest : List (OutboxEntry fl))
      → Moved x s a mid
      → Moved y x.1 b rest
      → Moved y s (a ++ b) rest
  Moved-Moved x y s a b mid rest h k = (
    k.0,
    k.1,
    k.2,
    k.3
        ∙ ap (λ fs. fs ++ payloads b) h.3
        ∙ append_assoc (bodies s) (payloads a) (payloads b)
        ∙ ap (λ fs. bodies s ++ fs)
            (sym (map-append (λ (e : OutboxEntry fl). str_payload fl e.payload) a b)),
  )

  relay_entries-Moved :
      (batch rest : List (OutboxEntry fl)) (s : Relay fl r)
      → s.db.outbox ≡ batch ++ rest
      → IsQueue fl 0 s.db.next_id (batch ++ rest)
      → Moved (relay_entries {fl = fl} {r = r} stream batch s) s batch rest
  unfolding relay_entries
  relay_entries-Moved [] rest s at queue = (refl, at, queue, sym (append-nil (bodies s)))
  relay_entries-Moved (e ∷ batch) rest s at queue =
      let x = relay_entry {fl = fl} {r = r} stream e s in
      let h = relay_entry-Moved e (batch ++ rest) s at queue in
      let k = relay_entries-Moved batch rest x.1 h.1 h.2 in
      subst (λ y. Moved y s (e ∷ batch) rest)
        (sym (goes_on (relay_entries {fl = fl} {r = r} stream batch) x h.0))
        (Moved-Moved x (relay_entries {fl = fl} {r = r} stream batch x.1) s (e ∷ []) batch
          (batch ++ rest) rest h k)

  relay_round-Moved :
      (s : Relay fl r)
      → IsQueue fl 0 s.db.next_id s.db.outbox
      → Moved (relay_round {fl = fl} {r = r} stream s) s (take 10 s.db.outbox) (drop 10 s.db.outbox)
  unfolding relay_round poll_outbox
  relay_round-Moved s queue =
      let split = sym (take-append-drop 10 s.db.outbox) in
      relay_entries-Moved (take 10 s.db.outbox) (drop 10 s.db.outbox) s split
        (subst (IsQueue fl 0 s.db.next_id) split queue)

  -- Between the rounds the others leave the database and the stream as they are.
  abbrev pub Quiet : (Relay fl r → Relay fl r) → Type 0
  Quiet others =
      (t : Relay fl r) → ((others t).db ≡ t.db) × (see (others t).process ≡ see t.process)

  empty : (xs : List (OutboxEntry fl)) → length xs ≤ 0 → xs ≡ []
  empty [] h = refl
  empty (x ∷ xs) h = ground arith

  drop_all :
      (n : ℕ) (xs : List (OutboxEntry fl)) (m : ℕ) → length xs ≤ n + m → length (drop n xs) ≤ m
  drop_all zero xs m h = omega arith
  drop_all (suc n) [] m h = omega arith
  drop_all (suc n) (x ∷ xs) m h = drop_all n xs m (omega arith)

  run-Moved :
      (schedule : List (Relay fl r → Relay fl r)) (s : Relay fl r)
      → All Quiet schedule
      → IsQueue fl 0 s.db.next_id s.db.outbox
      → length s.db.outbox ≤ 10 * length schedule
      → Moved (run {fl = fl} {r = r} stream schedule s) s s.db.outbox []
  unfolding run
  run-Moved [] s quiet queue enough =
      let none_left = empty s.db.outbox enough in
      (
        refl,
        none_left,
        tt,
        sym (append-nil (bodies s)) ∙ ap (λ es. bodies s ++ payloads es) (sym none_left),
      )
  run-Moved (others ∷ rest) s quiet queue enough =
      let now = others s in
      let (same_db, same_server) = quiet.0 s in
      let queue' = subst (λ db. IsQueue fl 0 db.next_id db.outbox) (sym same_db) queue in
      let x = relay_round {fl = fl} {r = r} stream now in
      let h = relay_round-Moved now queue' in
      let fewer : length x.1.db.outbox ≤ 10 * length rest =
        subst (λ es. length es ≤ 10 * length rest) (sym h.1)
          (drop_all 10 now.db.outbox (10 * length rest)
            (omega (arith, enough, ap (λ (db : Db fl). length db.outbox) same_db))) in
      let k =
        run-Moved rest x.1 quiet.1 (subst (IsQueue fl 0 x.1.db.next_id) (sym h.1) h.2) fewer in
      let y = run {fl = fl} {r = r} stream rest x.1 in
      let all =
        Moved-Moved x y now (take 10 now.db.outbox) x.1.db.outbox (drop 10 now.db.outbox) [] h k in
      let whole =
        ap (λ es. take 10 now.db.outbox ++ es) h.1
        ∙ take-append-drop 10 now.db.outbox
        ∙ ap (λ (db : Db fl). db.outbox) same_db in
      let same_bodies =
        ap (λ (v : Server). map (λ (m : Entry). m.1) (v.entries stream)) same_server in
      subst (λ z. Moved z s s.db.outbox [])
        (sym (goes_on (run {fl = fl} {r = r} stream rest) x h.0))
        (
          all.0,
          all.1,
          all.2,
          subst (λ es. bodies y.1 ≡ bodies s ++ payloads es) whole
              (all.3
                ∙ ap (λ fs. fs ++ payloads (take 10 now.db.outbox ++ x.1.db.outbox)) same_bodies),
        )

  -- On a server that answers, a relay that runs for a round per ten rows, or longer, while the others
  -- leave the outbox and the server alone, returns with an empty outbox: the payload of each row is
  -- on the stream exactly once more, in the order of the rows.
  pub run_drains :
      (schedule : List (Relay fl r → Relay fl r)) (s : Relay fl r)
      → All Quiet schedule
      → IsQueue fl 0 s.db.next_id s.db.outbox
      → length s.db.outbox ≤ 10 * length schedule
      → let (result, t) = run {fl = fl} {r = r} stream schedule s in
        (result ≡ ok tt) × (t.db.outbox ≡ []) × (bodies t ≡ bodies s ++ payloads s.db.outbox)
  run_drains schedule s quiet queue enough =
      let h = run-Moved schedule s quiet queue enough in (h.0, h.1, h.3)
