-- ===== src/Tests/Rows.antt =====
-- The theorems about the SQL persistence at concrete inputs.
use recommendation_service.Base.{
  take, none, ◌++◌, ℕ, ◌≡◌, refl, false, List, [], ◌∷◌, map, arith, All, filter, contains, nat_eq,
  Distinct,
}
use recommendation_service.Base.Dict.{values, update, lookup}
use recommendation_service.Base.Effects.{ok, err, value_error}
use recommendation_service.Base.Sort.{sort, take-sort-Selects}
use recommendation_service.Base.Text.{strip, text}
use recommendation_service.Catalog.{GameProfile}
use recommendation_service.Catalog.Laws.{IsProfile}
use recommendation_service.Embedding.Sparse.Weights.{IsEmbedding}
use recommendation_service.Outbox.{OutboxRecord}
use recommendation_service.Sql.{
  zoned, aware, map_option, write_game, game_to_domain, preference_to_domain, write_preference,
}
use recommendation_service.Sql.RoundTrip.{KeepsInstant, game_roundtrip, preference_roundtrip}
use recommendation_service.Sql.Queries.{
  Poll, Selecting, OutboxRow, to_record, claim, recommendable_rows, needing_embedding_rows,
}
use recommendation_service.Sql.Queries.Agreement.{scans_agree, stored_game}
use recommendation_service.Sql.Queries.Lease.{Elapsed, still, added, claims-apart}
use recommendation_service.Sql.Queries.Ownership.{marked, write-Agree, write_rows, staged_by, Agree}
use recommendation_service.Recommendation.{RecommendationGenerated}
use recommendation_service.Generate.{GenerateConfig}
use recommendation_service.Scoring.{content_based_scorer}
use recommendation_service.Store.Repositories.{seen}
use recommendation_service.Sql.Session.{Tables, seen_row}
use recommendation_service.Sql.Session.Agreement.{
  Write, announced, handled, Shows, in_session, in_memory, in_session-Shows,
}
use recommendation_service.Store.{begin, add_ownerships}
use recommendation_service.Store.Commit.{flag_in}
use recommendation_service.Store.Repositories.{recommendable, needing_embedding, merged_games}
use recommendation_service.Tests.Domain.{racer-IsProfile, racing_taste-IsEmbedding}
use recommendation_service.Tests.Values.{
  numbers, racer, fan, shop, sorted_select, dropping, blank_row, fan_row, fresh_row, bought_row,
}

dropping-KeepsInstant : KeepsInstant dropping
unfolding aware
dropping-KeepsInstant at = refl

sorted_select-Selecting : Selecting sorted_select
sorted_select-Selecting A test le total transitive n rows =
    take-sort-Selects le total transitive n (filter test rows)

game_roundtrip_example :
    game_to_domain (record (write_game blank_row racer) {
      published_at = map_option dropping (write_game blank_row racer).published_at;
    })
    ≡ ok racer
game_roundtrip_example =
    game_roundtrip dropping dropping-KeepsInstant blank_row racer racer-IsProfile
      racing_taste-IsEmbedding

preference_roundtrip_example :
    (owned : List ℕ) × (preference_to_domain
        (λ s. err value_error)
        (record (write_preference fan_row fan) {
          updated_at = map_option dropping (write_preference fan_row fan).updated_at;
        })
      ≡ ok (record fan { owned = owned }))
    × ((x : ℕ) → contains owned x ≡ contains fan.owned x)
preference_roundtrip_example =
    preference_roundtrip dropping dropping-KeepsInstant (λ id. refl) (λ s. err value_error) fan_row
      fan racing_taste-IsEmbedding

abbrev two_rows : List (OutboxRow ℕ)
two_rows = fresh_row ∷ record fresh_row { id = 31; occurred_at = zoned 11 } ∷ []

-- A poll, a letter that is added, and another poll, within a lease of 30.
abbrev first_poll : Poll ℕ
first_poll = claim sorted_select 30 50 (λ row. false) 20 1 two_rows

abbrev third_row : OutboxRow ℕ
third_row = record fresh_row { id = 32 }

meanwhile :
    Elapsed sorted_select sorted_select-Selecting
      (map (λ (k : OutboxRecord ℕ). k.id) first_poll.records)
      50
      first_poll.table
      (first_poll.table ++ third_row ∷ [])
unfolding claim to_record take sort contains filter
meanwhile = added first_poll.table first_poll.table third_row refl (still first_poll.table)

claims-apart_example :
    All
      (λ (l : OutboxRecord ℕ).
        contains (map (λ (k : OutboxRecord ℕ). k.id) first_poll.records) l.id ≡ false)
      (claim sorted_select 40 50 (λ row. false) 25 10 (first_poll.table ++ third_row ∷ [])).records
claims-apart_example =
    claims-apart sorted_select sorted_select-Selecting 30 50 1 40 50 10 20 25 (λ row. false)
      (λ row. false) two_rows (first_poll.table ++ third_row ∷ []) meanwhile (omega arith)

one_purchase-Agree : Agree (bought_row ∷ []) ((2, (7, false) ∷ []) ∷ [])
unfolding flag_in lookup
one_purchase-Agree user_id game_id = ground arith

write-Agree_example :
    Agree
      (write_rows 50 (marked 2 (7 ∷ [])) (bought_row ∷ []))
      (add_ownerships (staged_by (marked 2 (7 ∷ []))) ((2, (7, false) ∷ []) ∷ []))
write-Agree_example =
    write-Agree 50 (marked 2 (7 ∷ [])) (bought_row ∷ []) ((2, (7, false) ∷ []) ∷ [])
      one_purchase-Agree (refl, tt)

shop_games-IsProfile :
    All
      (λ (g : GameProfile ℕ). IsProfile g × IsEmbedding g.embedding)
      (values (merged_games (begin shop)))
unfolding update strip
shop_games-IsProfile = (
  (racer-IsProfile, racing_taste-IsEmbedding),
  (
    (
      record { titled = refl; in_bounds = omega arith; described = λ h. cc h },
      racing_taste-IsEmbedding,
    ),
    tt,
  ),
)

shop_keys : Distinct (map (λ (g : GameProfile ℕ). g.game_id) (values (merged_games (begin shop))))
unfolding update contains
shop_keys = (refl, (refl, tt))

scans_agree_example :
    (recommendable_rows sorted_select 1
        (map (stored_game dropping blank_row) (values (merged_games (begin shop))))
      ≡ ok (recommendable 1 (begin shop)))
    × (needing_embedding_rows sorted_select 1
          (map (stored_game dropping blank_row) (values (merged_games (begin shop))))
        ≡ ok (needing_embedding 1 (begin shop)))
scans_agree_example =
    scans_agree dropping blank_row sorted_select sorted_select-Selecting dropping-KeepsInstant
      (begin shop) shop_games-IsProfile shop_keys 1

abbrev blank_tables : Tables ℕ
blank_tables = record { outbox = []; processed_events = [] }

abbrev list_event : RecommendationGenerated ℕ
list_event = record {
  event_id = 60;
  occurred_at = 50;
  aggregate_id = 7;
  user_id = 7;
  generated_at = 50;
  items = [];
}

abbrev sql_config : GenerateConfig ℕ
sql_config = record {
  scorer = content_based_scorer;
  catalogue_limit = 500;
  explanations = none;
  dense_space = false;
  topic = text "reco-events";
  correlation_id = none;
}

blank-Shows : Shows [] blank_tables (begin shop)
unfolding seen_row seen contains
blank-Shows = record { letters = refl; marks = λ x. refl; keyed = tt }

-- A list is announced, and an event is marked twice.
abbrev writes : List (Write ℕ)
writes = announced list_event ∷ handled 61 ∷ handled 61 ∷ []

in_session-Shows_example :
    Shows []
      (in_session sql_config 50 writes blank_tables)
      (in_memory sql_config 50 writes (begin shop))
in_session-Shows_example =
    in_session-Shows sql_config 50 [] writes blank_tables (begin shop) blank-Shows
