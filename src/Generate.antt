-- ===== src/Generate.antt =====
-- application/usecases/generate.py and enrich.py: the batch that ranks, stores and announces one
-- user's list, the sweep over the users, and the embedding of games that have no vector yet.
pub mod Listing
pub mod Stored
use recommendation_service.Base.{
  ℕ, ◌+◌, Bool, true, false, not, ◌||◌, Option, none, some, List, [], ◌∷◌, ◌++◌, map, leb,
  if◌then◌else◌, take, length, nat_eq,
}
use recommendation_service.Base.Dict.{Dict, lookup, get_or}
use recommendation_service.Base.Effects.{
  Error, Result, Exec, ok, err, value_error, pure, raise, lift, gets, modify, and_then, ◌>>=◌, ◌>>◌,
  continue,
}
use recommendation_service.Base.Sort.{sort}
use recommendation_service.Base.Text.{Text, is_empty}
use recommendation_service.Catalog.{GameProfile, embedded, embedding_text}
use recommendation_service.Embedding.Dense.{DenseEmbedding}
use recommendation_service.Limits.{max_collaborative_candidates, max_explained_candidates}
use recommendation_service.Outbox.Envelope.{letter_of}
use recommendation_service.Preference.{UserPreference, blank, is_cold, remembered_games, rebuilt_in}
use recommendation_service.Recommendation.{
  Recommendation, RecommendationGenerated, checked, generated_event,
}
use recommendation_service.Runtime.{Runtime}
use recommendation_service.Scoring.{ContentScorer, ScoredGame, rank, blended, source}
use recommendation_service.Store.{MemoryStore, UnitOfWork, commit, with_uow}
use recommendation_service.Store.Repositories.{
  get_preference, upsert_preference, by_ids, recommendable, co_purchases, replace_for, upsert_game,
  needing_embedding, with_signals,
}

-- What `EventStampFactory` answers in one run: `now()`, the ids of `new_uuid()` in turn, and the
-- stamp of `next()`.
pub record Stamps : Type 0 where
  pub now : ℕ
  pub new_uuid : ℕ → ℕ
  pub event_id : ℕ
  pub emitted_at : ℕ

pub record ExplainedGame : Type 0 where
  pub game_id : ℕ
  pub title : Text
  pub genres : List Text
  pub tags : List Text

pub record ExplanationRequest : Type 0 where
  pub liked : List ExplainedGame
  pub candidates : List ExplainedGame

-- The port: the reasons by game.
abbrev pub Explanations : Type 0
Explanations = ExplanationRequest → Result (Dict ℕ (List Text))

abbrev pub as_explained : {F : Type 0} → GameProfile F → ExplainedGame
as_explained game = record {
  game_id = game.game_id;
  title = game.title;
  genres = game.genres;
  tags = game.tags;
}

-- What the use case is built with, apart from the stores.
pub record GenerateConfig (F : Type 0) : Type 0 where
  pub scorer : ContentScorer F
  pub catalogue_limit : ℕ
  pub explanations : Option Explanations
  pub dense_space : Bool
  pub topic : Text
  pub correlation_id : Option Text

module _ {F : Type 0} where
  abbrev pub with_reasons : Dict ℕ (List Text) → ScoredGame F → ScoredGame F
  with_reasons reasons item = record item {
    reasons = get_or (lookup item.game.game_id reasons) item.reasons;
  }

  unfoldable pub explanation_request :
      List (ScoredGame F) → List (GameProfile F) → ExplanationRequest
  explanation_request scored played = record {
    liked = map as_explained (take max_explained_candidates played);
    candidates = map (λ i. as_explained i.game) (take max_explained_candidates scored);
  }

  -- `_explained`
  unfoldable pub explained :
      Option Explanations
      → List (ScoredGame F)
      → List (GameProfile F)
      → Result (List (ScoredGame F))
  unfolding explanation_request
  explained none scored played = ok scored
  explained (some explain) scored played =
      if is_empty scored
      then ok scored
      else and_then (explain (explanation_request scored played))
          λ reasons. ok (if is_empty reasons then scored else map (with_reasons reasons) scored)

module _ {F : Type 0} ⦃r : Runtime F⦄ where
  abbrev pub recommendation : ℕ → Stamps → ℕ → ScoredGame F → Recommendation F
  recommendation user_id stamps rank item = record {
    id = stamps.new_uuid rank;
    user_id = user_id;
    game_id = item.game.game_id;
    score = blended item;
    source = source item;
    rank = rank;
    generated_at = stamps.now;
    reasons = item.reasons;
  }

  -- The list of `Recommendation`s over `enumerate(scored, start=rank)`.
  unfoldable pub recommend :
      ℕ → Stamps → (rank : ℕ) → List (ScoredGame F) → Result (List (Recommendation F))
  recommend user_id stamps rank [] = ok []
  recommend user_id stamps rank (item ∷ scored) =
      and_then (checked (recommendation user_id stamps rank item))
        λ first. and_then (recommend user_id stamps (rank + 1) scored) λ rest. ok (first ∷ rest)

  -- `MemoryOutbox.enqueue` of one event
  unfoldable pub enqueue :
      GenerateConfig F → RecommendationGenerated F → UnitOfWork F → UnitOfWork F
  enqueue config event uow = record uow {
    events = uow.events ++ letter_of config.topic config.correlation_id event ∷ [];
  }

  -- `rebuilt_in({game.game_id: game.dense for game in played})`, in the dense space only
  unfoldable pub refreshed :
      Bool → UserPreference F → List (GameProfile F) → Exec (UnitOfWork F) (UserPreference F)
  refreshed false preference played = pure preference
  refreshed true preference played = do
    rebuilt ← lift (rebuilt_in preference (map (λ g. (g.game_id, g.dense)) played))
    modify (upsert_preference rebuilt)
    pure rebuilt

  unfoldable pub ranked :
      GenerateConfig F → ℕ → ℕ → UserPreference F → UnitOfWork F → List (ScoredGame F)
  ranked config user_id limit preference uow =
      rank config.scorer preference (recommendable config.catalogue_limit uow)
        (co_purchases user_id (sort leb preference.owned) max_collaborative_candidates uow) limit

  unfoldable pub announce :
      GenerateConfig F → Stamps → ℕ → List (Recommendation F) → Exec (UnitOfWork F) (Unit {0})
  unfolding enqueue
  announce config stamps user_id [] = pure tt
  announce config stamps user_id (first ∷ rest) =
      modify
        (enqueue config (generated_event user_id (first ∷ rest) stamps.event_id stamps.emitted_at))

  unfoldable pub generate_warm :
      GenerateConfig F → Stamps → ℕ → ℕ → UserPreference F → Exec (UnitOfWork F) ℕ
  unfolding refreshed ranked recommend announce
  generate_warm config stamps user_id limit before = do
    played ← gets (by_ids (remembered_games before))
    preference ← refreshed config.dense_space before played
    scored ← gets (ranked config user_id limit preference)
    chosen ← lift (explained config.explanations scored played)
    recommendations ← lift (recommend user_id stamps 1 chosen)
    modify (replace_for user_id recommendations)
    announce config stamps user_id recommendations
    pure (length recommendations)

  unfoldable pub generate_cold : ℕ → Exec (UnitOfWork F) ℕ
  generate_cold user_id = do modify (replace_for user_id []); pure 0

  -- `_generate`
  unfoldable pub generate_body : GenerateConfig F → Stamps → ℕ → ℕ → Exec (UnitOfWork F) ℕ
  unfolding generate_warm generate_cold
  generate_body config stamps user_id limit = do
    found ← gets (get_preference user_id)
    let preference : UserPreference F = get_or found (blank user_id)
    if is_cold preference
        then generate_cold user_id
        else generate_warm config stamps user_id limit preference

  -- GenerateRecommendationsUseCase.execute
  unfoldable pub generate : GenerateConfig F → Stamps → ℕ → ℕ → Exec (MemoryStore F) ℕ
  unfolding generate_body with_uow
  generate config stamps user_id limit =
      with_uow (do written ← generate_body config stamps user_id limit; modify commit; pure written)

  -- The loop of EmbedPendingGamesUseCase over `zip(pending, vectors, strict=True)`.
  unfoldable pub embed_all : List (GameProfile F) → List (List F) → Exec (UnitOfWork F) (Unit {0})
  embed_all [] [] = pure tt
  embed_all [] (v ∷ vectors) = raise value_error
  embed_all (game ∷ pending) [] = raise value_error
  embed_all (game ∷ pending) (v ∷ vectors) = do
    changed ← lift (embedded game (record { components = v }))
    modify (upsert_game changed)
    embed_all pending vectors

  unfoldable pub embed_with : List (GameProfile F) → Result (List (List F)) → Exec (MemoryStore F) ℕ
  unfolding embed_all with_uow
  embed_with pending (err e) = pure 0
  embed_with pending (ok vectors) =
      with_uow (do embed_all pending vectors; modify commit; pure (length pending))

  -- EmbedPendingGamesUseCase.execute; `embed` is the provider.
  unfoldable pub embed_pending : (List Text → Result (List (List F))) → ℕ → Exec (MemoryStore F) ℕ
  unfolding embed_with
  embed_pending embed batch_size = do
    pending ← with_uow (gets (needing_embedding batch_size))
    if is_empty pending then pure 0 else embed_with pending (embed (map embedding_text pending))

pub record RefreshReport : Type 0 where
  pub users_processed : ℕ
  pub recommendations_written : ℕ
  pub generated_at : ℕ

module _ {F : Type 0} ⦃r : Runtime F⦄ where
  -- One round of the loop over the users: an exception is logged, and the loop goes on.
  abbrev pub counted : (processed written : ℕ) → Result ℕ → MemoryStore F → (ℕ × ℕ × MemoryStore F)
  counted processed written (ok n) s = (processed + 1, written + n, s)
  counted processed written (err e) s = (processed, written, s)

  -- The stamps of each user's run are those of `stamps` at that user.
  unfoldable pub sweep :
      GenerateConfig F
      → (ℕ → Stamps)
      → ℕ
      → List ℕ
      → (processed written : ℕ) → MemoryStore F
      → (ℕ × ℕ × MemoryStore F)
  sweep config stamps limit [] processed written s = (processed, written, s)
  sweep config stamps limit (user_id ∷ users) processed written s =
      let (result, s') = generate config (stamps user_id) user_id limit s in
      let (p, w, t) = counted processed written result s' in sweep config stamps limit users p w t

  unfoldable pub embed_first : Option (Exec (MemoryStore F) ℕ) → Exec (MemoryStore F) ℕ
  embed_first none = pure 0
  embed_first (some embedding) = embedding

  unfoldable pub sweep_from :
      GenerateConfig F
      → (ℕ → Stamps)
      → (limit finished_at : ℕ) → List ℕ
      → Exec (MemoryStore F) RefreshReport
  unfolding sweep
  sweep_from config stamps limit finished_at users s =
      let (processed, written, t) = sweep config stamps limit users 0 0 s in
      (
        ok (record {
          users_processed = processed;
          recommendations_written = written;
          generated_at = finished_at;
        }),
        t,
      )

  -- RefreshAllRecommendationsUseCase.execute
  unfoldable pub refresh_all :
      GenerateConfig F
      → (ℕ → Stamps)
      → (batch_size limit finished_at : ℕ) → Option (Exec (MemoryStore F) ℕ)
      → Exec (MemoryStore F) RefreshReport
  unfolding embed_first sweep_from with_uow
  refresh_all config stamps batch_size limit finished_at embedding = do
    embed_first embedding
    users ← with_uow (gets (with_signals batch_size))
    sweep_from config stamps limit finished_at users

  -- `execute_for`
  unfoldable pub refresh_one :
      GenerateConfig F
      → (ℕ → Stamps)
      → (user_id limit finished_at : ℕ) → Option (Exec (MemoryStore F) ℕ)
      → Exec (MemoryStore F) RefreshReport
  unfolding embed_first
  refresh_one config stamps user_id limit finished_at embedding = do
    embed_first embedding
    written ← generate config (stamps user_id) user_id limit
    pure (record {
      users_processed = 1;
      recommendations_written = written;
      generated_at = finished_at;
    })
