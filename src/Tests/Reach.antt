-- ===== src/Tests/Reach.antt =====
-- A store that the service comes to.
use recommendation_service.Base.{◌≡◌, ◌≤◌, ℕ, false, none, [], ◌∷◌}
use recommendation_service.Base.Text.{text}
use recommendation_service.Base.Effects.{ok}
use recommendation_service.Composition.{refresh}
use recommendation_service.Composition.Sweep.{refresh_total}
use recommendation_service.Tests.Providers.{defaults, outside, defaults-validated}
use recommendation_service.Generate.{RefreshReport, GenerateConfig, Stamps, generate}
use recommendation_service.Ingest.{Description, publication, sale, handle}
use recommendation_service.Reachable.{fresh_store, started, handled, generated, Reached-WellFormed}
use recommendation_service.Reachable.Sound.{WellFormed}
use recommendation_service.Scoring.{content_based_scorer}
use recommendation_service.Store.{MemoryStore}
use recommendation_service.Tests.Values.{numbers}

abbrev release : Description
release = record {
  game_id = 1;
  developer_id = 9;
  title = text "Racer";
  genres = text "race" ∷ [];
  tags = [];
  description = [];
  published_at = none;
}

abbrev config : GenerateConfig ℕ
config = record {
  scorer = content_based_scorer;
  catalogue_limit = 500;
  explanations = none;
  dense_space = false;
  topic = text "reco-events";
  correlation_id = none;
}

abbrev stamps : Stamps
stamps = record { now = 50; new_uuid = λ n. n; event_id = 60; emitted_at = 50 }

-- A game is published and bought, and the buyer's list is generated.
abbrev later : MemoryStore ℕ
later =
    (generate config stamps 7 10
      (handle 500 50 61 (sale 7 1 none) (handle 500 50 60 (publication release) fresh_store).1).1).1

Reached-WellFormed_example : WellFormed later
Reached-WellFormed_example = Reached-WellFormed (
    generated (handled (handled started 500 50 60 (publication release)) 500 50 61 (sale 7 1 none))
      config stamps 7 10)

later-WellFormed : WellFormed later
later-WellFormed = Reached-WellFormed (
    generated (handled (handled started 500 50 60 (publication release)) 500 50 61 (sale 7 1 none))
      config stamps 7 10)

refresh_total_example :
    (report : RefreshReport) × (t : MemoryStore ℕ) × (refresh defaults outside none
        (λ user_id. stamps)
        10
        70
        later
      ≡ (ok report, t))
    × (report.users_processed ≤ 500)
    × WellFormed t
refresh_total_example =
    refresh_total (λ s. s) defaults outside none (λ user_id. stamps) 10 70 later defaults-validated
      later-WellFormed
