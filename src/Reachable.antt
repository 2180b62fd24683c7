-- ===== src/Reachable.antt =====
-- The stores that the service can come to: what is written by the handlers, the batch, the pass that
-- embeds games and the dispatcher, in any order, also where they raise.
pub mod Sound
pub mod Handlers
pub mod Batch
use recommendation_service.Base.{ℕ, List, []}
use recommendation_service.Base.Effects.{Result, Exec}
use recommendation_service.Base.Text.{Text}
use recommendation_service.Generate.{Stamps, GenerateConfig, generate, embed_pending}
use recommendation_service.Ingest.{Inbound, handle}
use recommendation_service.Outbox.{OutboxRecord}
use recommendation_service.Outbox.Dispatcher.{drain_once}
use recommendation_service.Reachable.Batch.{
  generate-WellFormed, embed_pending-WellFormed, drain_once-WellFormed,
}
use recommendation_service.Reachable.Handlers.{handle-WellFormed}
use recommendation_service.Reachable.Sound.{WellFormed}
use recommendation_service.Runtime.{Runtime}
use recommendation_service.Store.{MemoryStore}

abbrev pub fresh_store : {F : Type 0} → MemoryStore F
fresh_store = record {
  games = [];
  preferences = [];
  ownerships = [];
  recommendations = [];
  outbox = [];
  processed_events = [];
}

module _ {F : Type 0} ⦃r : Runtime F⦄ where
  pub data Reached : MemoryStore F → Type 1 where
    started : Reached fresh_store
    handled :
        {s : MemoryStore F}
        → Reached s
        → (backfill_limit now event_id : ℕ) (e : Inbound)
        → Reached (handle backfill_limit now event_id e s).1
    generated :
        {s : MemoryStore F}
        → Reached s
        → (config : GenerateConfig F) (stamps : Stamps) (user_id limit : ℕ)
        → Reached (generate config stamps user_id limit s).1
    games_embedded :
        {s : MemoryStore F}
        → Reached s
        → (embed : List Text → Result (List (List F))) (batch_size : ℕ)
        → Reached (embed_pending embed batch_size s).1
    drained :
        {s : MemoryStore F}
        → Reached s
        → {P : Type 0} (publisher : OutboxRecord F → Exec P (Unit {0})) (jitter : ℕ → ℕ)
          (now batch_size : ℕ) (p : P)
        → Reached (drain_once publisher jitter now batch_size s p).1

  -- In every store that events, batches, embedding passes and polls of the dispatcher can lead to, in
  -- any order and also where they raise, each game stands under its own id and meets its checks, each
  -- profile stands under its user's id with a well-formed vector and a bounded history, each list
  -- holds checked recommendations of its own user, and no id stands twice.
  pub Reached-WellFormed : {s : MemoryStore F} → Reached s → WellFormed s
  Reached-WellFormed started = record {
    games = (tt, tt);
    preferences = (tt, tt);
    recommendations = (tt, tt);
  }
  Reached-WellFormed (handled {s} reached backfill_limit now event_id e) =
      handle-WellFormed backfill_limit now event_id e s (Reached-WellFormed reached)
  Reached-WellFormed (generated {s} reached config stamps user_id limit) =
      generate-WellFormed config stamps user_id limit s (Reached-WellFormed reached)
  Reached-WellFormed (games_embedded {s} reached embed batch_size) =
      embed_pending-WellFormed embed batch_size s (Reached-WellFormed reached)
  Reached-WellFormed (drained {s} reached publisher jitter now batch_size p) =
      drain_once-WellFormed publisher jitter now batch_size s p (Reached-WellFormed reached)
