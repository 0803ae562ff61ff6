-- ===== src/ScatterGather/Aggregator/Deadline.antt =====
-- What a gather collects, and when it ends.
use message_broker_patterns.Base.{
  ℕ, zero, suc, ◌+◌, ◌≤◌, ◌<◌, ◌≡◌, refl, String, Bool, true, false, List, [], ◌∷◌, ◌++◌, length,
  take, append_assoc, append-nil, subst, sym, ◌∙◌, length-append, leb, str_eq, if◌then◌else◌, arith,
}
use message_broker_patterns.ScatterGather.Models.{FlightQuote}
use message_broker_patterns.ScatterGather.Broker.{Topics}
use message_broker_patterns.ScatterGather.Aggregator.{
  Arrival, Gathered, later, gather_loop, gather, Message,
}

-- The quotes for the search that come in before the deadline, and before any that comes too late.
abbrev pub answers : String → ℕ → List Arrival → List FlightQuote
answers id deadline [] = []
answers id deadline ((at, q) ∷ rest) =
    let more = answers id deadline rest in
    if leb deadline at then [] else if str_eq q.correlation_id id then q ∷ more else more

-- An outcome is right if it collects what there was room for, no later than the deadline.
abbrev pub IsRight : ℕ → List FlightQuote → List FlightQuote → Gathered → Type 0
IsRight deadline collected more g = (g.collected ≡ collected ++ more) × (g.at ≤ deadline)

full : (n : ℕ) → leb (n + 0) n ≡ true
full n = ground arith

not_full : (n m : ℕ) → leb (n + suc m) n ≡ false
not_full n m = ground arith

in_time : (now deadline : ℕ) → now < deadline → leb deadline now ≡ false
in_time now deadline h = ground arith

gather_loop_lem :
    (id : String) (room deadline : ℕ) (collected : List FlightQuote) (arrivals : List Arrival)
    (now : ℕ)
    → now < deadline
    → IsRight deadline collected
        (take room (answers id deadline arrivals))
        (gather_loop id (length collected + room) deadline collected arrivals now)
unfolding gather_loop
gather_loop_lem id zero deadline collected [] now early = (sym (append-nil collected), ground arith)
gather_loop_lem id (suc room) deadline collected [] now early =
    (sym (append-nil collected), ground arith)
gather_loop_lem id zero deadline collected ((at, q) ∷ rest) now early =
    rw (full (length collected)) (sym (append-nil collected), omega arith)
gather_loop_lem id (suc room) deadline collected ((at, q) ∷ rest) now early =
    rw (not_full (length collected) room, in_time now deadline early)
      (go (leb deadline at) (str_eq q.correlation_id id) (λ e. ground arith)
        (λ early'. gather_loop_lem id (suc room) deadline collected rest (later now at) early')
        (λ early'.
          gather_loop_lem id room deadline (collected ++ q ∷ []) rest (later now at) early'))
  where
    go :
        (late ours : Bool)
        → (late ≡ false → later now at < deadline)
        → (later now at < deadline
            → IsRight deadline collected (take (suc room) (answers id deadline rest)) (
                gather_loop id
                  (length collected + suc room)
                  deadline
                  collected
                  rest
                  (later now at)))
        → (later now at < deadline
            → IsRight deadline (collected ++ q ∷ []) (take room (answers id deadline rest)) (
                gather_loop id
                  (length (collected ++ q ∷ []) + room)
                  deadline
                  (collected ++ q ∷ [])
                  rest
                  (later now at)))
        → IsRight deadline collected
            (take (suc room) (
              if late
              then []
              else if ours
              then q ∷ answers id deadline rest
              else answers id deadline rest))
            (if late
              then record { collected = collected; left = (at, q) ∷ rest; at = deadline }
              else if ours
              then gather_loop id
                  (length collected + suc room)
                  deadline
                  (collected ++ q ∷ [])
                  rest
                  (later now at)
              else gather_loop id
                  (length collected + suc room)
                  deadline
                  collected
                  rest
                  (later now at))
    go true ours early' other mine = (sym (append-nil collected), omega arith)
    go false false early' other mine = other (early' refl)
    go false true early' other mine =
        let h = mine (early' refl) in
        let same : length (collected ++ q ∷ []) + room ≡ length collected + suc room =
          ground (arith, length-append collected (q ∷ [])) in
        rw (sym same)
          (h.0 ∙ append_assoc collected (q ∷ []) (take room (answers id deadline rest)), h.1)

-- With a positive timeout a gather returns the first `expected` of the quotes that carry the search's
-- correlation id and come in before the deadline, in their order, whatever other searches' quotes
-- come between them; and it ends no later than the deadline.
pub gather-Deadline :
    (id : String) (expected timeout now : ℕ) (arrivals : List Arrival) (b : Topics Message)
    → 0 < timeout
    → let g = (gather id expected timeout arrivals now b).0 in
      (g.collected ≡ take expected (answers id (now + timeout) arrivals)) × (g.at ≤ now + timeout)
unfolding gather
gather-Deadline id expected timeout now arrivals b positive =
    subst
      (λ n.
        IsRight (now + timeout) [] (take expected (answers id (now + timeout) arrivals))
          (gather_loop id n (now + timeout) [] arrivals now))
      (omega arith) (gather_loop_lem id expected (now + timeout) [] arrivals now (omega arith))
