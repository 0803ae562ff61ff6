-- ===== src/EventSourcing/Projector/Liveness.antt =====
-- The polling loop on a server that answers: it catches up with the account.
use message_broker_patterns.Base.{
  ℕ, suc, ◌*◌, ◌≤◌, String, ◌≡◌, refl, sym, ap, ◌∙◌, subst, Bool, false, List, [], ◌∷◌, ◌++◌, map,
  take, drop, leb, leb-false→lt, length, All, arith,
}
use message_broker_patterns.Base.Exec.{Result, ok, err, and_then}
use message_broker_patterns.Redis.{Redis, Laws, IsUp}
use message_broker_patterns.Redis.View.{Fields, Entry}
use message_broker_patterns.Process.{Process, see}
use message_broker_patterns.EventSourcing.Events.{account_stream, to_dict}
use message_broker_patterns.EventSourcing.Projector.{
  AccountSummary, Projection, new_summary, project_loop, project,
}
use message_broker_patterns.EventSourcing.Projector.Agreement.{
  apply_all, Returned, SameModel, read_model-run_commands,
}
use message_broker_patterns.EventSourcing.Aggregate.{BankAccount}
use message_broker_patterns.EventSourcing.Aggregate.Replay.{Command, run_commands, new_account}
use message_broker_patterns.EventSourcing.Projector.Success.{IsOk, length-drop, bodies}
use message_broker_patterns.EventSourcing.Projector.Polls.{Ahead}
use message_broker_patterns.EventSourcing.Projector.Rounds.{
  Quiet, version_of, CaughtUp, split_lengths, rejoined, after_poll, loop_step,
}

module _ {r : Redis} (laws : Laws r) (up : IsUp r) (account_id : String)
    (expected_version : ℕ) where
  in_time :
      (t : Projection r) (seen rest : List Entry)
      → Ahead laws up account_id expected_version t (seen ++ take 100 rest) (drop 100 rest)
      → expected_version ≡ length (seen ++ rest)
      → length (drop 100 rest) ≤ 0
      → leb expected_version t.summary.version ≡ false
      → ⊥
  unfolding Ahead
  in_time t seen rest h v gone e = omega (
    arith,
    leb-false→lt expected_version t.summary.version e,
    version_of laws up account_id expected_version t (seen ++ take 100 rest) (drop 100 rest) h.0,
    split_lengths laws up account_id expected_version seen rest,
    v,
    gone,
  )

  loop-CaughtUp :
      (others : r.State → r.State) (schedule : List (r.State → r.State)) (s : Projection r)
      (seen rest : List Entry)
      → Quiet laws up account_id expected_version others
      → All (Quiet laws up account_id expected_version) schedule
      → Ahead laws up account_id expected_version s seen rest
      → expected_version ≡ length (seen ++ rest)
      → length rest ≤ 100 * suc (length schedule)
      → CaughtUp laws up account_id expected_version
          (seen ++ rest)
          (project_loop account_id expected_version (others ∷ schedule) s)
  unfolding project_loop after_poll
  loop-CaughtUp others [] s seen rest q qs h v enough =
      loop_step laws up account_id expected_version others s seen rest
        (project_loop account_id expected_version []) q h v
        (λ t there e.
          absurd (in_time t seen rest there v (length-drop 100 rest 0 (omega (arith, enough))) e))
  loop-CaughtUp others (o ∷ schedule) s seen rest q qs h v enough =
      loop_step laws up account_id expected_version others s seen rest
        (project_loop account_id expected_version (o ∷ schedule)) q h v
        (λ t there e.
          subst
            (λ es.
              CaughtUp laws up account_id expected_version es
                (project_loop account_id expected_version (o ∷ schedule) t))
            (rejoined laws up account_id expected_version seen rest)
            (loop-CaughtUp o schedule t (seen ++ take 100 rest) (drop 100 rest) qs.0 qs.1 there
              (v ∙ ap length (sym (rejoined laws up account_id expected_version seen rest)))
              (length-drop 100 rest (100 * suc (length schedule)) (omega (arith, enough)))))

  -- `project` has returned a summary that is the fold of all the entries.
  project-CaughtUp :
      (others : r.State → r.State) (schedule : List (r.State → r.State)) (p : Process r)
      (s : Projection r) (es : List Entry)
      → Quiet laws up account_id expected_version others
      → All (Quiet laws up account_id expected_version) schedule
      → (see p).entries (account_stream account_id) ≡ es
      → IsOk (apply_all (bodies es) (new_summary account_id))
      → expected_version ≡ length es
      → length es ≤ 100 * suc (length schedule)
      → (summary : AccountSummary) × ((project account_id expected_version
            (others ∷ schedule)
            p
            s).0
          ≡ ok summary)
        × (apply_all (bodies es) (new_summary account_id) ≡ (ok tt, summary))
  unfolding project CaughtUp Ahead bodies
  project-CaughtUp others schedule p s es q qs there good v enough =
      ended (project_loop account_id expected_version (others ∷ schedule) first) (
        loop-CaughtUp others schedule first [] es q qs
          ((there, refl, unfold apply_all in refl), good) v enough)
    where
      first : Projection r
      first = record { process = p; summary = new_summary account_id; last_id = "0" }

      ended :
          (x : Result Bool × Projection r)
          → CaughtUp laws up account_id expected_version es x
          → (summary : AccountSummary) × ((and_then (λ _ t. (ok t.summary, t)) x).0 ≡ ok summary)
            × (apply_all (bodies es) (new_summary account_id) ≡ (ok tt, summary))
      ended (ok b, t) h = (t.summary, refl, h.1.2)
      ended (err e, t) h = ground (arith, h.0)

  fold_of :
      (a : BankAccount) (fs : List Fields)
      → Returned (apply_all fs (new_summary account_id)) (SameModel a)
      → IsOk (apply_all fs (new_summary account_id))
        × ((t : AccountSummary)
            → apply_all fs (new_summary account_id) ≡ (ok tt, t)
            → SameModel a t)
  fold_of a fs h = go (apply_all fs (new_summary account_id)) h
    where
      go :
          (x : Result Unit × AccountSummary)
          → Returned x (SameModel a)
          → IsOk x × ((t : AccountSummary) → x ≡ (ok tt, t) → SameModel a t)
      go (ok u, c) h =
          (tt, λ t e. subst (SameModel a) (ap (λ (y : Result Unit × AccountSummary). y.1) e) h)
      go (err e, c) h = absurd h

  -- On a server that answers, and whose stream holds the events of any run of commands on a new
  -- account, in order, a projection that waits for as many versions as there are events returns, if
  -- it may poll at least once and once per hundred events, and the others leave the server alone:
  -- the summary has the owner, the balance and the version of the account that the commands left.
  pub project_catches_up :
      (cs : List Command) (others : r.State → r.State) (schedule : List (r.State → r.State))
      (p : Process r) (s : Projection r) (es : List Entry)
      → Quiet laws up account_id expected_version others
      → All (Quiet laws up account_id expected_version) schedule
      → (see p).entries (account_stream account_id) ≡ es
      → map (λ (e : Entry). e.1) es ≡ map to_dict (run_commands cs (new_account account_id)).0
      → expected_version ≡ length es
      → length es ≤ 100 * suc (length schedule)
      → (summary : AccountSummary) × ((project account_id expected_version
            (others ∷ schedule)
            p
            s).0
          ≡ ok summary)
        × SameModel (run_commands cs (new_account account_id)).1 summary
  unfolding bodies
  project_catches_up cs others schedule p s es q qs there stored v enough =
      let a = (run_commands cs (new_account account_id)).1 in
      let fold = fold_of a (bodies es) (
        subst (λ fs. Returned (apply_all fs (new_summary account_id)) (SameModel a)) (sym stored)
          (read_model-run_commands cs account_id)) in
      let (summary, e, f) = project-CaughtUp others schedule p s es q qs there fold.0 v enough in
      (summary, e, fold.1 summary f)
