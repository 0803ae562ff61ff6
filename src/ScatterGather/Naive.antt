-- ===== src/ScatterGather/Naive.antt =====
-- scatter_gather_pattern/naive.py: the airlines are asked one after the other. A lookup acts on the
-- state that the airlines share, the time that has passed for instance.
use message_broker_patterns.Base.{List, [], ◌∷◌, ◌++◌}
use message_broker_patterns.Base.Exec.{Exec, pure, ◌>>=◌}
use message_broker_patterns.ScatterGather.Models.{SearchRequest, FlightQuote}

abbrev pub AsyncQuoteLookup : Type 0 → Type 0
AsyncQuoteLookup W = SearchRequest → Exec W FlightQuote

module _ {W : Type 0} (search : SearchRequest) where
  -- The loop, with the quotes so far.
  unfoldable pub ask_in_turn :
      List FlightQuote → List (AsyncQuoteLookup W) → Exec W (List FlightQuote)
  ask_in_turn quotes [] = pure quotes
  ask_in_turn quotes (lookup ∷ lookups) = do
    quote ← lookup search
    ask_in_turn (quotes ++ quote ∷ []) lookups

  unfoldable pub gather_quotes_sequentially : List (AsyncQuoteLookup W) → Exec W (List FlightQuote)
  unfolding ask_in_turn
  gather_quotes_sequentially lookups = ask_in_turn [] lookups
