-- ===== src/ScatterGather/Broker.antt =====
-- scatter_gather_pattern/broker.py: topics with one queue per subscriber. A queue is an object that
-- the broker and its subscriber share, so it is a number, and its content is in a store.
pub mod FanOut
use message_broker_patterns.Base.{
  ℕ, suc, String, Bool, true, false, Option, none, some, List, [], ◌∷◌, ◌++◌, length, ◌==◌,
  if◌then◌else◌,
}
use message_broker_patterns.Base.Dict.{Dict, lookup, insert}
use message_broker_patterns.Metrics.{Registry, increment}

pub record Topics (M : Type 0) : Type 0 where
  pub subscribers : Dict (List ℕ)
  -- the messages in each queue, oldest first
  pub content : ℕ → List M
  -- the number of the next queue
  pub next_queue : ℕ
  pub metrics : Registry

-- list.remove: the first that is equal
unfoldable pub remove : ℕ → List ℕ → List ℕ
remove q [] = []
remove q (p ∷ ps) = let rest = remove q ps in if p == q then ps else p ∷ rest

module _ {M : Type 0} where
  -- self._subscribers.get(topic, ())
  abbrev pub queues_of : String → Topics M → List ℕ
  queues_of topic b = elim (lookup topic b.subscribers) [ none ↦ [] | some qs ↦ qs ]

  unfoldable pub subscribe : String → Topics M → ℕ × Topics M
  subscribe topic b = (
    b.next_queue,
    record b {
      subscribers = insert topic (queues_of topic b ++ b.next_queue ∷ []) b.subscribers;
      content = λ q. if q == b.next_queue then [] else b.content q;
      next_queue = suc b.next_queue;
    },
  )

  unfoldable pub unsubscribe : String → ℕ → Topics M → Topics M
  unsubscribe topic q b = elim (lookup topic b.subscribers) [
    | none ↦ b
    | some qs ↦ record b { subscribers = insert topic (remove q qs) b.subscribers }
  ]

  -- queue.put(message)
  abbrev pub put : M → ℕ → (ℕ → List M) → ℕ → List M
  put m q content p = if p == q then content p ++ m ∷ [] else content p

  abbrev pub put_all : M → List ℕ → (ℕ → List M) → ℕ → List M
  put_all m [] content = content
  put_all m (q ∷ qs) content = put_all m qs (put m q content)

  unfoldable pub publish : String → M → Topics M → ℕ × Topics M
  publish topic m b = (
    length (queues_of topic b),
    record b {
      content = put_all m (queues_of topic b) b.content;
      metrics = increment "scatter_gather" "messages_published" 1 b.metrics;
    },
  )

  unfoldable pub subscriber_count : String → Topics M → ℕ
  subscriber_count topic b = length (queues_of topic b)
