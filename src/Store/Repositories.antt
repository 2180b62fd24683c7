-- ===== src/Store/Repositories.antt =====
-- The repositories of memory/repositories.py, and `MemoryProcessedEventStore`.
use recommendation_service.Base.{
  ℕ, ◌+◌, Bool, true, false, not, ◌&&◌, ◌||◌, Option, none, some, List, [], ◌∷◌, ◌++◌, map, leb,
  ltb, nat_beq, if◌then◌else◌, nat_eq, take, filter, contains, length, dedup,
}
use mathlib.Core.List.{filter_map}
use recommendation_service.Base.Dict.{Dict, lookup, put, update, get_or, or_else, keys, values}
use recommendation_service.Base.Sort.{sort}
use recommendation_service.Base.Text.{is_empty}
use recommendation_service.Catalog.{GameProfile, needs_embedding}
use recommendation_service.Embedding.Dense
use recommendation_service.Embedding.Dense.{is_blank}
use recommendation_service.Outbox.{is_none}
use recommendation_service.Preference.{UserPreference}
use recommendation_service.Recommendation.{Recommendation}
use recommendation_service.Runtime.{Runtime}
use recommendation_service.Scoring.{more_popular}
use recommendation_service.Store.{MemoryStore, UnitOfWork, union}

abbrev pub staged_owner : ℕ → List ℕ → ℕ × ℕ × Bool → Option ℕ
staged_owner game_id pending (user_id, staged_game, counted) =
    if nat_beq staged_game game_id && not counted && not (contains pending user_id)
    then some user_id
    else none

-- `counts[game_id] += 1` for the games of one neighbour
unfoldable pub count_games : List ℕ → Dict ℕ ℕ → Dict ℕ ℕ
count_games [] counts = counts
count_games (game_id ∷ games) counts =
    count_games games (put game_id (get_or (lookup game_id counts) 0 + 1) counts)

module _ {F : Type 0} where
  -- MemoryGameProfileRepository

  unfoldable pub get_game : ℕ → UnitOfWork F → Option (GameProfile F)
  get_game game_id uow = or_else (lookup game_id uow.games) (lookup game_id uow.store.games)

  unfoldable pub upsert_game : GameProfile F → UnitOfWork F → UnitOfWork F
  upsert_game game uow = record uow { games = put game.game_id game uow.games }

  -- `{**self._store.games, **self._staged}`
  abbrev pub merged_games : UnitOfWork F → Dict ℕ (GameProfile F)
  merged_games uow = update uow.store.games uow.games

  unfoldable pub recommendable : ℕ → UnitOfWork F → List (GameProfile F)
  recommendable limit uow =
      take limit (sort more_popular (filter (λ g. g.is_published) (values (merged_games uow))))

  unfoldable pub by_ids : List ℕ → UnitOfWork F → List (GameProfile F)
  by_ids game_ids uow = filter_map (λ id. lookup id (merged_games uow)) game_ids

  unfoldable pub count_recommendable : UnitOfWork F → ℕ
  count_recommendable uow = length (filter (λ g. g.is_published) (values (merged_games uow)))

  unfoldable pub needing_embedding : ℕ → UnitOfWork F → List (GameProfile F)
  needing_embedding limit uow =
      take limit (sort more_popular (filter needs_embedding (values (merged_games uow))))

  -- MemoryUserPreferenceRepository

  unfoldable pub get_preference : ℕ → UnitOfWork F → Option (UserPreference F)
  get_preference user_id uow =
      or_else (lookup user_id uow.preferences) (lookup user_id uow.store.preferences)

  unfoldable pub upsert_preference : UserPreference F → UnitOfWork F → UnitOfWork F
  upsert_preference preference uow = record uow {
    preferences = put preference.user_id preference uow.preferences;
  }

  -- The key `(updated_at is None, str(user_id))`.
  abbrev pub listed_before : UserPreference F → UserPreference F → Bool
  listed_before a b =
      if is_none a.updated_at
      then (if is_none b.updated_at then leb a.user_id b.user_id else false)
      else (if is_none b.updated_at then true else leb a.user_id b.user_id)

  unfoldable pub with_signals : ℕ → UnitOfWork F → List ℕ
  with_signals limit uow =
      map (λ p. p.user_id)
        (take limit (
          sort listed_before (
            filter (λ p. ltb 0 p.signal_count)
              (values (update uow.store.preferences uow.preferences)))))

  -- MemoryOwnershipRepository

  unfoldable pub record_ownership : (user_id game_id : ℕ) → Bool → UnitOfWork F → UnitOfWork F
  record_ownership user_id game_id counted uow = record uow {
    ownerships = uow.ownerships ++ (user_id, game_id, counted) ∷ [];
  }

  -- The owners of one game whose flag is down, in the store and among the staged rows.
  unfoldable pub uncounted_stored : ℕ → MemoryStore F → List ℕ
  uncounted_stored game_id store =
      keys (filter (λ e. not e.1) (get_or (lookup game_id store.ownerships) []))

  unfoldable pub uncounted_owners : ℕ → ℕ → UnitOfWork F → List ℕ
  unfolding uncounted_stored
  uncounted_owners game_id limit uow =
      let pending = uncounted_stored game_id uow.store in
      take limit (pending ++ filter_map (staged_owner game_id pending) uow.ownerships)

  unfoldable pub mark_counted : ℕ → List ℕ → UnitOfWork F → UnitOfWork F
  mark_counted game_id user_ids uow = record uow {
    ownerships = uow.ownerships ++ map (λ user_id. (user_id, game_id, true)) user_ids;
  }

  -- MemoryRecommendationRepository

  unfoldable pub replace_for : ℕ → List (Recommendation F) → UnitOfWork F → UnitOfWork F
  replace_for user_id items uow = record uow {
    recommendations = put user_id items uow.recommendations;
  }

  unfoldable pub for_user : ℕ → ℕ → UnitOfWork F → List (Recommendation F)
  for_user user_id limit uow =
      let stored =
        get_or
          (or_else (lookup user_id uow.recommendations) (lookup user_id uow.store.recommendations))
          [] in
      take limit (sort (λ a b. leb a.rank b.rank) stored)

  -- MemoryProcessedEventStore

  unfoldable pub seen : ℕ → UnitOfWork F → Bool
  seen event_id uow =
      contains uow.store.processed_events event_id || contains uow.processed event_id

  unfoldable pub mark : ℕ → UnitOfWork F → UnitOfWork F
  mark event_id uow = record uow { processed = union uow.processed (event_id ∷ []) }

  -- MemoryStore

  unfoldable pub owners_of : ℕ → MemoryStore F → List ℕ
  owners_of game_id store = keys (get_or (lookup game_id store.ownerships) [])

  unfoldable pub owned_by : ℕ → MemoryStore F → List ℕ
  owned_by user_id store = keys (filter (λ e. contains (keys e.1) user_id) store.ownerships)

module _ {F : Type 0} ⦃r : Runtime F⦄ where
  -- The key `(-cosine, str(game_id))`.
  abbrev pub nearer : GameProfile F → GameProfile F → GameProfile F → Bool
  nearer game a b =
      let x = r.neg (Dense.cosine game.dense b.dense) in
      let y = r.neg (Dense.cosine game.dense a.dense) in
      if r.eq x y then leb a.game_id b.game_id else not (r.lt x y)

  unfoldable pub nearest_to : GameProfile F → ℕ → UnitOfWork F → List (GameProfile F)
  nearest_to game limit uow =
      if is_blank game.dense
      then []
      else take limit (
          sort (nearer game) (
            filter
              (λ c.
                c.is_published && not (nat_beq c.game_id game.game_id) && not (is_blank c.dense))
              (values (update uow.store.games uow.games))))

  -- The sets are walked in the runtime's order.
  unfoldable pub count_neighbours : List ℕ → List ℕ → MemoryStore F → Dict ℕ ℕ → Dict ℕ ℕ
  unfolding count_games owned_by
  count_neighbours owned [] store counts = counts
  count_neighbours owned (neighbour ∷ neighbours) store counts =
      count_neighbours owned neighbours store (
        count_games (r.id_order (filter (λ g. not (contains owned g)) (owned_by neighbour store)))
          counts)

  unfoldable pub all_owners : List ℕ → MemoryStore F → List ℕ
  unfolding owners_of
  all_owners [] store = []
  all_owners (game_id ∷ games) store = owners_of game_id store ++ all_owners games store

  unfoldable pub co_purchases : ℕ → List ℕ → ℕ → UnitOfWork F → Dict ℕ ℕ
  unfolding count_neighbours all_owners
  co_purchases user_id owned limit uow =
      let neighbours = filter (λ u. not (nat_beq u user_id)) (dedup (all_owners owned uow.store)) in
      let counts = count_neighbours owned (r.id_order neighbours) uow.store [] in
      if is_empty owned then [] else take limit (sort (λ a b. leb b.1 a.1) counts)
