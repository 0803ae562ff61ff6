-- ===== src/ScatterGather/Broker/FanOut.antt =====
-- Who a published message reaches.
use message_broker_patterns.Base.{
  ℕ, suc, ◌≤◌, ◌<◌, ◌≡◌, refl, str_eq, String, Bool, true, false, Option, none, some, List, [], ◌∷◌,
  ◌++◌, ◌==◌, if◌then◌else◌, arith,
}
use message_broker_patterns.Base.Dict.{lookup, insert, lookup-insert}
use message_broker_patterns.ScatterGather.Broker.{
  Topics, queues_of, subscribe, remove, unsubscribe, put, put_all, publish,
}

abbrev pub has : ℕ → List ℕ → Bool
has q [] = false
has q (p ∷ ps) = if p == q then true else has q ps

-- The queues in the order of their creation, each once.
abbrev pub IsRising : ℕ → ℕ → List ℕ → Type 0
IsRising low next [] = Unit
IsRising low next (q ∷ qs) = (low ≤ q) × (q < next) × IsRising (suc q) next qs

pub has-above : (q low next : ℕ) (qs : List ℕ) → IsRising low next qs → q < low → has q qs ≡ false
has-above q low next [] h lt = refl
has-above q low next (p ∷ ps) h lt = ground (arith, has-above q (suc p) next ps h.2)

pub IsRising-more :
    (low next : ℕ) (qs : List ℕ)
    → IsRising low next qs
    → low ≤ next
    → IsRising low (suc next) (qs ++ next ∷ [])
IsRising-more low next [] h le = (omega arith, omega arith, tt)
IsRising-more low next (q ∷ qs) h le =
    (h.0, omega arith, IsRising-more (suc q) next qs h.2 (omega arith))

IsRising-later : (low next : ℕ) (qs : List ℕ) → IsRising low next qs → IsRising low (suc next) qs
IsRising-later low next [] h = tt
IsRising-later low next (q ∷ qs) h = (h.0, omega arith, IsRising-later (suc q) next qs h.2)

IsRising-lower :
    (low low' next : ℕ) (qs : List ℕ) → IsRising low next qs → low' ≤ low → IsRising low' next qs
IsRising-lower low low' next [] h le = tt
IsRising-lower low low' next (q ∷ qs) h le = (omega arith, h.1, h.2)

pub IsRising-remove :
    (p low next : ℕ) (qs : List ℕ) → IsRising low next qs → IsRising low next (remove p qs)
unfolding remove
IsRising-remove p low next [] h = tt
IsRising-remove p low next (q ∷ qs) h = go (q == p) (IsRising-remove p (suc q) next qs h.2)
  where
    go :
        (b : Bool)
        → IsRising (suc q) next (remove p qs)
        → IsRising low next (if b then qs else q ∷ remove p qs)
    go true k = IsRising-lower (suc q) low next qs h.2 (omega arith)
    go false k = (h.0, h.1, k)

-- What a client asks of the broker.
pub data Call (M : Type 0) : Type 0 where
  subscribe_to : String → Call M
  unsubscribe_from : String → ℕ → Call M
  publish_on : String → M → Call M

module _ {M : Type 0} where
  -- Each topic has its subscribers' queues, each once, all handed out before.
  abbrev pub IsWired : Topics M → Type 0
  IsWired b = (topic : String) → IsRising 0 b.next_queue (queues_of topic b)

  put_all_lem :
      (m : M) (q low next : ℕ) (qs : List ℕ) (content : ℕ → List M)
      → IsRising low next qs
      → put_all m qs content q ≡ (if has q qs then content q ++ m ∷ [] else content q)
  put_all_lem m q low next [] content h = refl
  put_all_lem m q low next (p ∷ ps) content h = ground (
    arith,
    put_all_lem m q (suc p) next ps (put m p content) h.2,
    has-above q (suc p) next ps h.2,
  )

  abbrev pub do_call : Call M → Topics M → Topics M
  do_call (subscribe_to topic) b = (subscribe topic b).1
  do_call (unsubscribe_from topic q) b = unsubscribe topic q b
  do_call (publish_on topic m) b = (publish topic m b).1

  abbrev pub do_calls : List (Call M) → Topics M → Topics M
  do_calls [] b = b
  do_calls (c ∷ cs) b = do_calls cs (do_call c b)

  with_queues :
      (qs : List ℕ) (next : ℕ) (topic : String) (b : Topics M)
      → IsRising 0 next qs
      → ((t : String) → IsRising 0 next (queues_of t b))
      → (t : String)
      → IsRising 0 next
          (elim (lookup t (insert topic qs b.subscribers)) [ none ↦ [] | some ps ↦ ps ])
  with_queues qs next topic b h wired t =
      rw (lookup-insert topic t qs b.subscribers) (go (str_eq topic t))
    where
      go :
          (c : Bool)
          → IsRising 0 next
              (elim (if c then some qs else lookup t b.subscribers) [ none ↦ [] | some ps ↦ ps ])
      go true = h
      go false = wired t

  pub do_call-IsWired : (c : Call M) (b : Topics M) → IsWired b → IsWired (do_call c b)
  unfolding subscribe unsubscribe publish
  do_call-IsWired (subscribe_to topic) b h =
      with_queues (queues_of topic b ++ b.next_queue ∷ []) (suc b.next_queue) topic b
        (IsRising-more 0 b.next_queue (queues_of topic b) (h topic) (omega arith))
        (λ t. IsRising-later 0 b.next_queue (queues_of t b) (h t))
  do_call-IsWired (unsubscribe_from topic q) b h = go (lookup topic b.subscribers) (h topic)
    where
      go :
          (o : Option (List ℕ))
          → IsRising 0 b.next_queue (elim o [ none ↦ [] | some ps ↦ ps ])
          → IsWired (elim o [
            | none ↦ b
            | some qs ↦ record b { subscribers = insert topic (remove q qs) b.subscribers }
          ])
      go none k = h
      go (some qs) k =
          with_queues (remove q qs) b.next_queue topic b (IsRising-remove q 0 b.next_queue qs k) h
  do_call-IsWired (publish_on topic m) b h = h

  do_calls-IsWired : (cs : List (Call M)) (b : Topics M) → IsWired b → IsWired (do_calls cs b)
  do_calls-IsWired [] b h = h
  do_calls-IsWired (c ∷ cs) b h = do_calls-IsWired cs (do_call c b) (do_call-IsWired c b h)

  -- Whatever was subscribed, unsubscribed and published before on a well-formed broker, a published
  -- message is appended exactly once to each queue that is then subscribed to the topic, and to no
  -- other queue.
  pub publish-once :
      (cs : List (Call M)) (b : Topics M) (topic : String) (m : M) (q : ℕ)
      → IsWired b
      → let now = do_calls cs b in
        (publish topic m now).1.content q
        ≡ (if has q (queues_of topic now) then now.content q ++ m ∷ [] else now.content q)
  unfolding publish
  publish-once cs b topic m q h =
      let now = do_calls cs b in
      put_all_lem m q 0 now.next_queue (queues_of topic now) now.content
        (do_calls-IsWired cs b h topic)
