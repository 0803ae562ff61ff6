-- ===== src/EventSourcing/Projector/CatchUp.antt =====
-- The polling loop: the read model is always the fold of a prefix of the stream, and it catches up.
use mathlib.Core.Path.{fun_ext}
use message_broker_patterns.Base.{
  ℕ, String, ◌≡◌, refl, sym, ap, ◌∙◌, Bool, true, false, List, [], ◌∷◌, ◌++◌, map, append_assoc,
  append-nil, map-append, take-append-drop, take, drop, leb, if◌then◌else◌, All,
}
use message_broker_patterns.Base.Exec.{
  Result, ok, err, and_then, and_then_assoc, Returns, Returns-and_then, Returns-imp,
}
use message_broker_patterns.Redis.{Redis, Laws}
use message_broker_patterns.Redis.View.{Fields, Entry, id_of, cursor}
use message_broker_patterns.Process.{Process, see, on_client, on_client-Returns, count}
use message_broker_patterns.EventSourcing.Events.{account_stream}
use message_broker_patterns.EventSourcing.Store.{read}
use message_broker_patterns.EventSourcing.Projector.{
  AccountSummary, Projection, new_summary, apply, apply_entry, apply_entries, poll, project_loop,
  project,
}
use message_broker_patterns.EventSourcing.Projector.Agreement.{apply_all}

module _ {r : Redis} (account_id : String) where
  -- The read model is the fold of the entries up to the cursor, and the rest is still to come.
  abbrev pub Folded : Projection r → List Entry → List Entry → Type 0
  Folded s seen rest =
      ((see s.process).entries (account_stream account_id) ≡ seen ++ rest)
      × (s.last_id ≡ cursor seen)
      × (apply_all (map (λ e. e.1) seen) (new_summary account_id) ≡ (ok tt, s.summary))

  abbrev pub IsFolded : Projection r → Type 0
  IsFolded s = (seen : List Entry) × (rest : List Entry) × Folded s seen rest

pub apply_all-append :
    (fs gs : List Fields) (s : AccountSummary)
    → apply_all (fs ++ gs) s ≡ and_then (λ _. apply_all gs) (apply_all fs s)
unfolding apply_all
apply_all-append [] gs s = refl
apply_all-append (f ∷ fs) gs s =
    ap (λ k. and_then k (apply f s)) (fun_ext λ u. fun_ext λ t. apply_all-append fs gs t)
    ∙ sym (and_then_assoc (λ u t. apply_all fs t) (λ u. apply_all gs) (apply f s))

cursor-append : (first : String) (es : List Entry) (e : Entry) → id_of first (es ++ e ∷ []) ≡ e.0
cursor-append first [] e = refl
cursor-append first ((id, f) ∷ es) e = cursor-append id es e

-- One more entry folded.
apply_all-last :
    (account_id : String) (seen : List Entry) (id : String) (raw : Fields) (c c' : AccountSummary)
    → apply_all (map (λ e. e.1) seen) (new_summary account_id) ≡ (ok tt, c)
    → apply raw c ≡ (ok tt, c')
    → apply_all (map (λ e. e.1) (seen ++ (id, raw) ∷ [])) (new_summary account_id) ≡ (ok tt, c')
unfolding apply_all
apply_all-last account_id seen id raw c c' h k =
    ap (λ fs. apply_all fs (new_summary account_id))
      (map-append (λ (e : Entry). e.1) seen ((id, raw) ∷ []))
    ∙ apply_all-append (map (λ e. e.1) seen) (raw ∷ []) (new_summary account_id)
    ∙ rw (h, k)

module _ {r : Redis} (account_id : String) (expected_version : ℕ) where
  apply_entry-Folded :
      (id : String) (raw : Fields) (s : Projection r) (seen rest : List Entry)
      → Folded account_id s seen ((id, raw) ∷ rest)
      → Returns
          (apply_entry account_id expected_version (id, raw) s)
          (λ _ t. Folded account_id t (seen ++ (id, raw) ∷ []) rest)
  unfolding apply_entry
  apply_entry-Folded id raw s seen rest h = go (apply raw s.summary) refl
    where
      go :
          (x : Result Unit × AccountSummary)
          → apply raw s.summary ≡ x
          → Returns
              (and_then
                (λ _ t. (
                  ok tt,
                  record t {
                    process = (count "event_sourcing" "read_model_events_applied" t.process).1;
                  },
                ))
                (x.0, record s { last_id = id; summary = x.1 }))
              (λ _ t. Folded account_id t (seen ++ (id, raw) ∷ []) rest)
      go (ok u, c) e = (
        h.0 ∙ sym (append_assoc seen ((id, raw) ∷ []) rest),
        sym (cursor-append "0" seen (id, raw)),
        apply_all-last account_id seen id raw s.summary c h.2 e,
      )
      go (err x, c) e = tt

  pub apply_entries-Folded :
      (es : List Entry) (s : Projection r) (seen rest : List Entry)
      → Folded account_id s seen (es ++ rest)
      → Returns
          (apply_entries account_id expected_version es s)
          (λ _ t. Folded account_id t (seen ++ es) rest)
  unfolding apply_entries
  apply_entries-Folded [] s seen rest h = rw (append-nil seen) h
  apply_entries-Folded ((id, raw) ∷ es) s seen rest h =
      Returns-and_then (λ _ t. Folded account_id t (seen ++ (id, raw) ∷ []) (es ++ rest))
        (λ _ t. Folded account_id t (seen ++ (id, raw) ∷ es) rest) _
        (apply_entry account_id expected_version (id, raw) s)
        (apply_entry-Folded id raw s seen (es ++ rest) h)
        (λ _ t k.
          rw (append_assoc seen ((id, raw) ∷ []) es) at
            (apply_entries-Folded es t (seen ++ (id, raw) ∷ []) rest k))

module _ {r : Redis} (laws : Laws r) (account_id : String) (expected_version : ℕ) where
  -- What `read` gives after a cursor.
  pub read_lem :
      (s : Projection r) (seen rest : List Entry)
      → Folded account_id s seen rest
      → Returns
          (read account_id s.last_id s.process)
          (λ es q. (es ≡ take 100 rest) × (see q ≡ see s.process))
  unfolding read
  read_lem s seen rest h =
      let stream = account_stream account_id in
      Returns-imp
        (λ es q.
          (see q ≡ see s.process)
          × ((xs ys : List Entry)
              → (see s.process).entries stream ≡ xs ++ ys
              → s.last_id ≡ cursor xs
              → es ≡ take 100 ys))
        (λ es q. (es ≡ take 100 rest) × (see q ≡ see s.process))
        (on_client (r.xread stream s.last_id 100) s.process)
        (on_client-Returns
          (λ es v.
            (v ≡ see s.process)
            × ((xs ys : List Entry)
                → (see s.process).entries stream ≡ xs ++ ys
                → s.last_id ≡ cursor xs
                → es ≡ take 100 ys))
          (r.xread stream s.last_id 100) s.process
          (laws.xread_lem stream s.last_id 100 s.process.client))
        (λ es q k. (k.1 seen rest h.0 h.1, k.0))

  -- One poll folds the next entries, a hundred at most, and skips none.
  pub poll-Folded :
      (s : Projection r) (seen rest : List Entry)
      → Folded account_id s seen rest
      → Returns
          (poll account_id expected_version s)
          (λ _ t. Folded account_id t (seen ++ take 100 rest) (drop 100 rest))
  unfolding poll
  poll-Folded s seen rest h = go (read account_id s.last_id s.process) (read_lem s seen rest h)
    where
      go :
          (x : Result (List Entry) × Process r)
          → Returns x (λ es q. (es ≡ take 100 rest) × (see q ≡ see s.process))
          → Returns
              (and_then
                (apply_entries account_id expected_version)
                (x.0, record s { process = x.1 }))
              (λ _ t. Folded account_id t (seen ++ take 100 rest) (drop 100 rest))
      go (ok es, q) (e, same) = rw e (
          apply_entries-Folded account_id expected_version (take 100 rest)
            (record s { process = q }) seen (drop 100 rest)
            (
              ap (λ v. v.entries (account_stream account_id)) same
                  ∙ h.0
                  ∙ ap (λ es. seen ++ es) (sym (take-append-drop 100 rest)),
              h.1,
              h.2,
            ))
      go (err x, q) k = tt

  -- What the other clients do to a stream between two polls: they append to it.
  abbrev pub IsAppending : List (r.State → r.State) → Type 0
  IsAppending schedule =
      All
        (λ others.
          (c : r.State)
          → (more : List Entry) × ((r.view (others c)).entries (account_stream account_id)
              ≡ (r.view c).entries (account_stream account_id) ++ more))
        schedule

  -- How the loop may end: caught up, or stopped from outside.
  abbrev Ended : Bool → Projection r → Type 0
  Ended caught_up s =
      IsFolded account_id s × (caught_up ≡ true → leb expected_version s.summary.version ≡ true)

  loop-Ended :
      (schedule : List (r.State → r.State)) (s : Projection r)
      → IsAppending schedule
      → IsFolded account_id s
      → Returns (project_loop account_id expected_version schedule s) Ended
  unfolding project_loop
  loop-Ended [] s appending h = (h, λ e. cc e)
  loop-Ended (others ∷ rest) s appending (seen, left, h) =
      let before = record s { process = record s.process { client = others s.process.client } } in
      let more = appending.0 s.process.client in
      Returns-and_then (λ _ t. IsFolded account_id t) Ended _
        (poll account_id expected_version before)
        (Returns-imp
          (λ _ t.
            Folded account_id t (seen ++ take 100 (left ++ more.0)) (drop 100 (left ++ more.0)))
          (λ _ t. IsFolded account_id t) (poll account_id expected_version before)
          (poll-Folded before seen (left ++ more.0)
            (more.1 ∙ ap (λ es. es ++ more.0) h.0 ∙ append_assoc seen left more.0, h.1, h.2))
          (λ _ t k. (seen ++ take 100 (left ++ more.0), drop 100 (left ++ more.0), k)))
        (λ _ t k.
          caught (leb expected_version t.summary.version) t refl k
            (loop-Ended rest t appending.1 k))
    where
      caught :
          (b : Bool) (t : Projection r)
          → leb expected_version t.summary.version ≡ b
          → IsFolded account_id t
          → Returns (project_loop account_id expected_version rest t) Ended
          → Returns
              ((if b then (λ u. (ok true, u)) else project_loop account_id expected_version rest) t)
              Ended
      caught true t e k again = (k, λ _. e)
      caught false t e k again = again

  -- When `project` returns, the summary is the fold of a prefix of the account's stream, from genesis
  -- and with no event skipped or folded twice. The server obeys its laws, and the other clients only
  -- append to the stream.
  pub project-IsFolded :
      (schedule : List (r.State → r.State)) (p : Process r) (s : Projection r)
      → IsAppending schedule
      → Returns (project account_id expected_version schedule p s) (λ summary t.
        (seen : List Entry) × (rest : List Entry) × ((see t.process).entries
            (account_stream account_id)
          ≡ seen ++ rest)
        × (apply_all (map (λ e. e.1) seen) (new_summary account_id) ≡ (ok tt, summary)))
  unfolding project
  project-IsFolded schedule p s appending =
      let first : Projection r = record {
        process = p;
        summary = new_summary account_id;
        last_id = "0";
      } in
      Returns-and_then Ended _ _ (project_loop account_id expected_version schedule first)
        (loop-Ended schedule first appending
          ([], (see p).entries (account_stream account_id), (refl, refl, unfold apply_all in refl)))
        (λ _ t k. (k.0.0, k.0.1, k.0.2.0, k.0.2.2))
