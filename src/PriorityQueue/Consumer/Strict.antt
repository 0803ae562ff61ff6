-- ===== src/PriorityQueue/Consumer/Strict.antt =====
-- The strict scan: which tier it serves.
use message_broker_patterns.Base.{
  ℕ, suc, ◌+◌, ◌≡◌, refl, sym, ap, ◌∙◌, String, Bool, true, false, ◌&&◌, Option, none, some, List,
  [], ◌∷◌, drop, take, length, str_eq, if◌then◌else◌, arith,
}
use message_broker_patterns.Base.Int.{pos}
use message_broker_patterns.Base.Exec.{Returns, Returns-and_then, Returns-imp}
use message_broker_patterns.Redis.{Redis, Laws}
use message_broker_patterns.Redis.View.{Entry, Server, fresh_entries, with_delivery}
use message_broker_patterns.Process.{Process, see, on_client-Returns}
use message_broker_patterns.Dlq.Broker.{block_of}
use message_broker_patterns.PriorityQueue.Models.{Priority}
use message_broker_patterns.PriorityQueue.Broker.{stream_of, read_new}
use message_broker_patterns.PriorityQueue.Consumer.{or_next, find_batch}

abbrev pub or_later :
    ℕ → Priority → List Entry → Option (Priority × List Entry) → Option (Priority × List Entry)
or_later n p [] rest = rest
or_later n p (e ∷ es) rest = some (p, take n (e ∷ es))

-- The first tier of the scan with waiting tickets, and the oldest `n` of these.
abbrev pub first_waiting :
    ℕ → (Priority → List Entry) → List Priority → Option (Priority × List Entry)
first_waiting n waiting [] = none
first_waiting n waiting (p ∷ ps) = or_later n p (waiting p) (first_waiting n waiting ps)

-- The tickets of a tier that the group has not been given.
abbrev pub waiting_in : String → Server → Priority → List Entry
waiting_in group v p = fresh_entries (stream_of p) group v

first_waiting-same :
    (n : ℕ) (f g : Priority → List Entry) (ps : List Priority)
    → ((p : Priority) → f p ≡ g p)
    → first_waiting n f ps ≡ first_waiting n g ps
first_waiting-same n f g [] same = refl
first_waiting-same n f g (p ∷ ps) same =
    ap (λ es. or_later n p es (first_waiting n f ps)) (same p)
    ∙ ap (or_later n p (g p)) (first_waiting-same n f g ps same)

-- A read that gives nothing leaves each tier's tickets as they were.
waiting_after_none :
    (stream group consumer : String) (v : Server) (p : Priority)
    → waiting_in group (with_delivery stream group consumer [] v) p ≡ waiting_in group v p
waiting_after_none stream group consumer v p =
    go (str_eq stream (stream_of p) && str_eq group group)
  where
    go :
        (c : Bool)
        → drop
            (if c
              then v.delivered (stream_of p) group + length {A = Entry} []
              else v.delivered (stream_of p) group)
            (v.entries (stream_of p))
          ≡ drop (v.delivered (stream_of p) group) (v.entries (stream_of p))
    go true = ap (λ k. drop k (v.entries (stream_of p))) (omega arith)
    go false = refl

module _ {r : Redis} (laws : Laws r) where
  read_new_lem :
      (p : Priority) (group consumer : String) (n : ℕ) (s : Process r)
      → Returns (read_new p group consumer n (pos 0) s) (λ es s'.
        (es ≡ take n (waiting_in group (see s) p))
        × (see s' ≡ with_delivery (stream_of p) group consumer es (see s)))
  unfolding read_new
  read_new_lem p group consumer n s =
      on_client-Returns
        (λ es v.
          (es ≡ take n (waiting_in group (see s) p))
          × (v ≡ with_delivery (stream_of p) group consumer es (see s)))
        (r.xreadgroup_new (stream_of p) group consumer n (block_of (pos 0))) s
        (laws.xreadgroup_new_lem (stream_of p) group consumer n (block_of (pos 0)) s.client)

  -- The scan of the strict-priority consumer, when it returns, gives the first tier of its order that
  -- has tickets which the group has not been given, with the oldest of these up to the read's count,
  -- and nothing if no tier has any: no ticket is claimed while a higher tier has one waiting.
  pub find_batch-Strict :
      (group consumer : String) (n : ℕ) (scan_order : List Priority) (s : Process r)
      → Returns
          (find_batch group consumer (suc n) scan_order s)
          (λ found _. found ≡ first_waiting (suc n) (waiting_in group (see s)) scan_order)
  unfolding find_batch
  find_batch-Strict group consumer n [] s = refl
  find_batch-Strict group consumer n (p ∷ ps) s =
      Returns-and_then
        (λ es s'.
          (es ≡ take (suc n) (waiting_in group (see s) p))
          × (see s' ≡ with_delivery (stream_of p) group consumer es (see s)))
        (λ found _. found ≡ first_waiting (suc n) (waiting_in group (see s)) (p ∷ ps)) _
        (read_new p group consumer (suc n) (pos 0) s) (read_new_lem p group consumer (suc n) s)
        (λ es s' h.
          go (waiting_in group (see s) p) refl es s' h.0 h.1
            (find_batch-Strict group consumer n ps s'))
    where
      go :
          (waiting : List Entry)
          → waiting_in group (see s) p ≡ waiting
          → (es : List Entry) (s' : Process r) → es ≡ take (suc n) waiting
          → see s' ≡ with_delivery (stream_of p) group consumer es (see s)
          → Returns
              (find_batch group consumer (suc n) ps s')
              (λ found _. found ≡ first_waiting (suc n) (waiting_in group (see s')) ps)
          → Returns
              (or_next (find_batch group consumer (suc n) ps) p es s')
              (λ found _. found ≡ first_waiting (suc n) (waiting_in group (see s)) (p ∷ ps))
      go [] none_waits [] s' h seen k =
          Returns-imp (λ found _. found ≡ first_waiting (suc n) (waiting_in group (see s')) ps)
            (λ found _. found ≡ first_waiting (suc n) (waiting_in group (see s)) (p ∷ ps))
            (find_batch group consumer (suc n) ps s') k
            (λ found _ e.
              e
              ∙ first_waiting-same (suc n) (waiting_in group (see s')) (waiting_in group (see s)) ps
                  (λ q.
                    ap (λ v. waiting_in group v q) seen
                    ∙ waiting_after_none (stream_of p) group consumer (see s) q)
              ∙ ap
                  (λ ws.
                    or_later (suc n) p ws (first_waiting (suc n) (waiting_in group (see s)) ps))
                  (sym none_waits))
      go [] none_waits (e ∷ es) s' h seen k = ground (arith, h)
      go (w ∷ ws) waits [] s' h seen k = ground (arith, h)
      go (w ∷ ws) waits (e ∷ es) s' h seen k =
          ap (λ l. some (p, l)) h
          ∙ ap (λ l. or_later (suc n) p l (first_waiting (suc n) (waiting_in group (see s)) ps))
              (sym waits)
