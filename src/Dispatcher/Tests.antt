-- ===== src/Dispatcher/Tests.antt =====
-- nats/dispatcher.go at given messages.
use tcg.Common.{
  ℕ, ◌≡◌, refl, Bool, true, false, Option, none, some, List, [], ◌∷◌, returns, arith, lookup,
}
use tcg.Dispatcher.{Msg, Verdict, delivered, transient, Dispatcher, Reply, fetch_round}
use tcg.Dispatcher.Delays.{fetch_round_total, IsAckThenNak}
use tcg.Dispatcher.Retries.{fail, after, gives_up}

abbrev delays : List ℕ
delays = 30 ∷ 60 ∷ []

abbrev fresh : Dispatcher
fresh = record { dura_seqs = []; retries = [] }

abbrev message : ℕ → Msg
message n = record { stream_seq = some n }

abbrev fetched : List (Msg × Verdict × Bool)
fetched =
    (message 7, delivered, false)
    ∷ (message 8, transient, false)
    ∷ (message 9, delivered, false)
    ∷ []

fetch_round_total_example :
    (d : Dispatcher) × (replies : List Reply) × (wait : Option ℕ) × (fetch_round delays "#events"
        fetched fresh
      ≡ returns (d, replies, wait))
    × IsAckThenNak replies
fetch_round_total_example = fetch_round_total delays "#events" fetched fresh

gives_up_example :
    ((fail delays "#events" 8 (after delays "#events" 8 2 fresh)).retry ≡ 2)
    × ((fail delays "#events" 8 (after delays "#events" 8 2 fresh)).done ≡ true)
    × (lookup "#events" (fail delays "#events" 8 (after delays "#events" 8 2 fresh)).state.retries
        ≡ none)
unfolding lookup
gives_up_example = gives_up delays "#events" 8 2 fresh refl (omega arith)
