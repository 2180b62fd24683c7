-- ===== src/Serve.antt =====
-- application/usecases/serve.py and application/dto: the two reads. They open a unit of work and
-- commit nothing.
pub mod Envelope
use recommendation_service.Base.{
  ℕ, ◌+◌, ◌*◌, Bool, true, false, not, ◌&&◌, Option, none, some, List, [], ◌∷◌, map, ltb, leb,
  nat_beq, if◌then◌else◌, take, filter, Eq, ◌↔◌, ◌≡◌, arith, dedup, nat_eq, refl,
}
use recommendation_service.Base.Dict.{Dict, lookup, get_or}
use recommendation_service.Base.Effects.{
  Result, Exec, ok, err, not_found, pure, raise, gets, ◌>>=◌, continue,
}
use recommendation_service.Base.Sort.{sort}
use recommendation_service.Base.Text.{Text, is_empty}
use recommendation_service.Catalog.{GameProfile}
use recommendation_service.Embedding.Dense
use recommendation_service.Embedding.Sparse
use recommendation_service.Preference.{UserPreference, blank}
use recommendation_service.Recommendation.{
  Recommendation, RecommendationSource, content, collab, hybrid, fallback,
}
use recommendation_service.Runtime.{Runtime}
use recommendation_service.Scoring.{top_sellers}
use recommendation_service.Store.{MemoryStore, UnitOfWork, with_uow}
use recommendation_service.Store.Repositories.{
  for_user, by_ids, recommendable, get_preference, get_game, nearest_to,
}

-- The ids in the responses are numbers here, where the program writes them by `str`.
pub record RecommendationItem (F : Type 0) : Type 0 where
  pub game_id : ℕ
  pub title : Text
  pub genres : List Text
  pub score : F
  pub source : RecommendationSource
  pub rank : ℕ
  pub reasons : List Text

pub record RecommendationsResponse (F : Type 0) : Type 0 where
  pub user_id : ℕ
  pub source : RecommendationSource
  pub generated_at : Option ℕ
  pub items : List (RecommendationItem F)

pub record SimilarGame (F : Type 0) : Type 0 where
  pub game_id : ℕ
  pub title : Text
  pub genres : List Text
  pub similarity : F
  pub shared_features : List Text

pub record SimilarGamesResponse (F : Type 0) : Type 0 where
  pub game_id : ℕ
  pub items : List (SimilarGame F)

abbrev pub source_beq : RecommendationSource → RecommendationSource → Bool
source_beq content content = true
source_beq collab collab = true
source_beq hybrid hybrid = true
source_beq fallback fallback = true
source_beq _ _ = false

pub source_beq_iff : (a b : RecommendationSource) → (source_beq a b ≡ true) ↔ (a ≡ b)
source_beq_iff a b = (λ h. ground arith, λ h. ground arith)

instance abbrev pub source_eq : Eq RecommendationSource
source_eq = record { beq = source_beq; beq_iff = source_beq_iff }

abbrev pub one_source : List RecommendationSource → RecommendationSource
one_source [] = fallback
one_source (s ∷ []) = s
one_source (s ∷ t ∷ rest) = hybrid

-- `_dominant_source`
unfoldable pub dominant_source : {F : Type 0} → List (Recommendation F) → RecommendationSource
dominant_source stored = one_source (dedup (map (λ i. i.source) stored))

unfoldable pub max_count : {F : Type 0} → List (GameProfile F) → ℕ
max_count [] = 0
max_count (g ∷ games) =
    let rest = max_count games in if ltb rest g.purchase_count then g.purchase_count else rest

module _ {F : Type 0} where
  abbrev pub title_of : Option (GameProfile F) → Text
  title_of none = []
  title_of (some game) = game.title

  abbrev pub genres_of : Option (GameProfile F) → List Text
  genres_of none = []
  genres_of (some game) = game.genres

module _ {F : Type 0} ⦃r : Runtime F⦄ where
  -- `RecommendationItem.of`
  unfoldable pub item_of : Recommendation F → Option (GameProfile F) → RecommendationItem F
  item_of stored game = record {
    game_id = stored.game_id;
    title = title_of game;
    genres = genres_of game;
    score = r.round6 stored.score;
    source = stored.source;
    rank = stored.rank;
    reasons = stored.reasons;
  }

  unfoldable pub items_of :
      List (Recommendation F) → List (GameProfile F) → List (RecommendationItem F)
  unfolding item_of
  items_of stored games =
      let catalogue =
        map (λ (g : GameProfile F). let e : ℕ × GameProfile F = (g.game_id, g) in e) games in
      map (λ i. item_of i (lookup i.game_id catalogue)) stored

  -- `_popularity_share`
  unfoldable pub popularity_share : GameProfile F → List (GameProfile F) → F
  unfolding max_count
  popularity_share game top =
      if leb (max_count top) 0
      then r.lit 0 0
      else r.round6 (r.true_div game.purchase_count (max_count top))

  unfoldable pub fallback_items :
      List (GameProfile F) → ℕ → List (GameProfile F) → List (RecommendationItem F)
  unfolding popularity_share
  fallback_items top rank [] = []
  fallback_items top rank (game ∷ games) =
      record {
        game_id = game.game_id;
        title = game.title;
        genres = game.genres;
        score = popularity_share game top;
        source = fallback;
        rank = rank;
        reasons = [];
      }
      ∷ fallback_items top (rank + 1) games

  -- The fallback's list; `max(limit * 4, limit)` games are looked at.
  unfoldable pub fallback_top : ℕ → ℕ → UnitOfWork F → List (GameProfile F)
  fallback_top user_id limit uow =
      let preference = get_or (get_preference user_id uow) (blank user_id) in
      let width = if ltb (limit * 4) limit then limit else limit * 4 in
      top_sellers (recommendable width uow) preference limit

  unfoldable pub fallback_response : ℕ → ℕ → UnitOfWork F → RecommendationsResponse F
  unfolding fallback_top fallback_items
  fallback_response user_id limit uow =
      let top = fallback_top user_id limit uow in
      record {
        user_id = user_id;
        source = fallback;
        generated_at = none;
        items = fallback_items top 1 top;
      }

  unfoldable pub response_of :
      ℕ → ℕ → List (Recommendation F) → UnitOfWork F → RecommendationsResponse F
  unfolding dominant_source items_of fallback_response
  response_of user_id limit [] uow = fallback_response user_id limit uow
  response_of user_id limit (first ∷ rest) uow = record {
    user_id = user_id;
    source = dominant_source (first ∷ rest);
    generated_at = some first.generated_at;
    items = items_of (first ∷ rest) (by_ids (map (λ i. i.game_id) (first ∷ rest)) uow);
  }

  -- ServeRecommendationsUseCase.execute
  unfoldable pub serve : ℕ → ℕ → Exec (MemoryStore F) (RecommendationsResponse F)
  unfolding response_of with_uow
  serve user_id limit =
      with_uow (do stored ← gets (for_user user_id limit); gets (response_of user_id limit stored))

  abbrev pub similar_dense : GameProfile F → GameProfile F → SimilarGame F
  similar_dense subject candidate = record {
    game_id = candidate.game_id;
    title = candidate.title;
    genres = candidate.genres;
    similarity = r.round6 (Dense.cosine subject.dense candidate.dense);
    shared_features = [];
  }

  -- The key `(-similarity, -purchase_count, str(game_id))`.
  abbrev pub more_similar : (F × GameProfile F) → (F × GameProfile F) → Bool
  more_similar (x, a) (y, b) =
      if r.eq (r.neg y) (r.neg x)
      then if nat_beq b.purchase_count a.purchase_count
        then leb a.game_id b.game_id
        else ltb b.purchase_count a.purchase_count
      else not (r.lt (r.neg y) (r.neg x))

  unfoldable pub similar_sparse :
      ℕ → GameProfile F → ℕ → List (GameProfile F) → List (F × GameProfile F)
  similar_sparse game_id subject limit candidates = take limit (
      sort more_similar (
        filter (λ e. r.lt (r.lit 0 0) e.0)
          (map (λ c. (Sparse.cosine subject.embedding c.embedding, c))
            (filter (λ c. not (nat_beq c.game_id game_id)) candidates))))

  abbrev pub similar_item : GameProfile F → (F × GameProfile F) → SimilarGame F
  similar_item subject (similarity, candidate) = record {
    game_id = candidate.game_id;
    title = candidate.title;
    genres = candidate.genres;
    similarity = r.round6 similarity;
    shared_features = Sparse.overlap subject.embedding candidate.embedding;
  }

  unfoldable pub similar_to :
      (catalogue_limit : ℕ) (dense_space : Bool) (game_id limit : ℕ)
      → Option (GameProfile F)
      → Exec (UnitOfWork F) (SimilarGamesResponse F)
  unfolding similar_sparse
  similar_to catalogue_limit dense_space game_id limit none = raise not_found
  similar_to catalogue_limit true game_id limit (some subject) = do
    neighbours ← gets (nearest_to subject limit)
    pure (record { game_id = game_id; items = map (similar_dense subject) neighbours })
  similar_to catalogue_limit false game_id limit (some subject) = do
    candidates ← gets (recommendable catalogue_limit)
    pure (record {
      game_id = game_id;
      items = map (similar_item subject) (similar_sparse game_id subject limit candidates);
    })

  -- ListSimilarGamesUseCase.execute
  unfoldable pub similar_games :
      (catalogue_limit : ℕ) (dense_space : Bool) (game_id limit : ℕ)
      → Exec (MemoryStore F) (SimilarGamesResponse F)
  unfolding similar_to with_uow
  similar_games catalogue_limit dense_space game_id limit = with_uow (do
    subject ← gets (get_game game_id)
    similar_to catalogue_limit dense_space game_id limit subject)
