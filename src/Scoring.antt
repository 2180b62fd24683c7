-- ===== src/Scoring.antt =====
-- domain/policy/scoring.py: the two scorers, the ranker that blends them, and the fallback.
pub mod Order
pub mod Rank
pub mod Popular
use mathlib.Core.List.{filter_map}
use recommendation_service.Base.{
  ℕ, ◌<◌, Bool, true, false, not, ◌&&◌, ◌||◌, Option, none, some, List, [], ◌∷◌, map, ltb, nat_beq,
  leb, if◌then◌else◌, nat_eq, take, filter,
}
use recommendation_service.Base.Dict.{Dict, lookup, get_or}
use recommendation_service.Base.Sort.{sort}
use recommendation_service.Base.Text.{Text}
use recommendation_service.Catalog.{GameProfile, is_recommendable}
use recommendation_service.Embedding.Dense
use recommendation_service.Embedding.Sparse
use recommendation_service.Preference.{UserPreference, owns}
use recommendation_service.Recommendation.{RecommendationSource, content, collab, hybrid}
use recommendation_service.Runtime.{Runtime}

pub record ScoredGame (F : Type 0) : Type 0 where
  pub game : GameProfile F
  pub content : F
  pub collaborative : F
  pub reasons : List Text

-- The protocol `ContentScorer`.
pub record ContentScorer (F : Type 0) : Type 0 where
  pub score : UserPreference F → GameProfile F → F
  pub reasons : UserPreference F → GameProfile F → List Text

module _ {F : Type 0} ⦃r : Runtime F⦄ where
  -- `max(0.0, x)`
  unfoldable pub clamped : F → F
  clamped x = if r.lt (r.lit 0 0) x then x else r.lit 0 0

  unfoldable pub content_based_scorer : ContentScorer F
  unfolding clamped
  content_based_scorer = record {
    score = λ preference game. clamped (Sparse.cosine preference.taste game.embedding);
    reasons = λ preference game. Sparse.overlap preference.taste game.embedding;
  }

  unfoldable pub dense_content_scorer : ContentScorer F
  unfolding clamped
  dense_content_scorer = record {
    score = λ preference game. clamped (Dense.cosine preference.taste_dense game.dense);
    reasons = λ preference game. [];
  }

  unfoldable pub source : ScoredGame F → RecommendationSource
  source item =
      if r.lt (r.lit 0 0) item.content && r.lt (r.lit 0 0) item.collaborative
      then hybrid
      else if r.lt (r.lit 0 0) item.collaborative
      then collab
      else content

  -- `count / (count + PRIOR)` with `PRIOR` 5.0
  abbrev pub shrunk : ℕ → F
  shrunk count = r.div (r.lit count 0) (r.add (r.lit count 0) (r.lit 5 0))

  unfoldable pub scores : Dict ℕ ℕ → Dict ℕ F
  scores co_purchases = map (λ e. (e.0, shrunk e.1)) (filter (λ e. ltb 0 e.1) co_purchases)

  unfoldable pub blend : F → F → F
  blend by_content by_others = r.add (r.mul (r.lit 65 2) by_content) (r.mul (r.lit 35 2) by_others)

  -- The key `(-blend, -purchase_count, str(game_id))` of `b` is below that of `a`.
  abbrev pub key_lt : F → GameProfile F → F → GameProfile F → Bool
  key_lt x b y a =
      if r.eq (r.neg x) (r.neg y)
      then if nat_beq b.purchase_count a.purchase_count
        then ltb b.game_id a.game_id
        else ltb a.purchase_count b.purchase_count
      else r.lt (r.neg x) (r.neg y)

  abbrev pub blended : ScoredGame F → F
  blended item = blend item.content item.collaborative

  abbrev pub ranks_before : ScoredGame F → ScoredGame F → Bool
  ranks_before a b = not (key_lt (blended b) b.game (blended a) a.game)

  -- One candidate of the loop: `none` is `continue`.
  unfoldable pub scored_game :
      ContentScorer F → UserPreference F → Dict ℕ F → GameProfile F → Option (ScoredGame F)
  scored_game scorer preference collaborative game =
      let item : ScoredGame F = record {
        game = game;
        content = scorer.score preference game;
        collaborative = get_or (lookup game.game_id collaborative) (r.lit 0 0);
        reasons = scorer.reasons preference game;
      } in
      if not (is_recommendable game) || owns preference game.game_id
      then none
      else if r.le (blended item) (r.lit 0 0)
      then none
      else some item

  unfoldable pub score_candidates :
      ContentScorer F → UserPreference F → Dict ℕ F → List (GameProfile F) → List (ScoredGame F)
  unfolding scored_game
  score_candidates scorer preference collaborative candidates =
      filter_map (scored_game scorer preference collaborative) candidates

  -- `HybridRanker.rank`
  unfoldable pub rank :
      ContentScorer F → UserPreference F → List (GameProfile F) → Dict ℕ ℕ → ℕ → List (ScoredGame F)
  unfolding score_candidates scores
  rank scorer preference candidates co_purchases limit =
      take limit
        (sort ranks_before (score_candidates scorer preference (scores co_purchases) candidates))

-- The key `(-purchase_count, str(game_id))`, by which the fallback and the repositories sort.
module _ {F : Type 0} where
  abbrev pub more_popular : GameProfile F → GameProfile F → Bool
  more_popular a b =
      if nat_beq b.purchase_count a.purchase_count
      then leb a.game_id b.game_id
      else ltb b.purchase_count a.purchase_count

  -- `TopSellersProvider.rank`
  unfoldable pub top_sellers : List (GameProfile F) → UserPreference F → ℕ → List (GameProfile F)
  top_sellers games preference limit = take limit (
      sort more_popular
        (filter (λ game. is_recommendable game && not (owns preference game.game_id)) games))
