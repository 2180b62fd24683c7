-- ===== src/Ingest.antt =====
-- application/usecases/ingest.py: the four handlers that turn an event into a change of the store.
-- `now` is what the clock answers, where a handler asks it. The log lines are not modelled.
pub mod Frame
pub mod Purchase
pub mod Backfill
pub mod Publication
use recommendation_service.Base.{
  ℕ, Bool, true, false, Option, none, some, List, [], ◌∷◌, if◌then◌else◌,
}
use recommendation_service.Base.Dict.{get_or}
use recommendation_service.Base.Effects.{
  Result, Exec, ok, err, pure, lift, gets, modify, ◌>>=◌, ◌>>◌, continue,
}
use recommendation_service.Base.Text.{Text, is_empty}
use recommendation_service.Catalog.{GameProfile, published, redescribed, bought, withdrawn}
use recommendation_service.Preference.{
  UserPreference, SignalKind, purchase, review_like, review_dislike, blank, observe,
}
use recommendation_service.Runtime.{Runtime}
use recommendation_service.Store.{MemoryStore, UnitOfWork, commit, with_uow}
use recommendation_service.Store.Repositories.{
  get_game, upsert_game, get_preference, upsert_preference, record_ownership, uncounted_owners,
  mark_counted, seen, mark,
}

-- The fields of one `GamePublished`.
pub record Description : Type 0 where
  pub game_id : ℕ
  pub developer_id : ℕ
  pub title : Text
  pub genres : List Text
  pub tags : List Text
  pub description : Text
  pub published_at : Option ℕ

-- What one inbound event asks for, past the parsing of its payload.
pub data Inbound : Type 0 where
  publication : Description → Inbound
  withdrawal : (game_id : ℕ) → Inbound
  sale : (recipient_id game_id : ℕ) → Option ℕ → Inbound
  opinion : (author_id game_id : ℕ) → Bool → Option ℕ → Inbound

abbrev pub review_kind : Bool → SignalKind
review_kind true = review_like
review_kind false = review_dislike

module _ {F : Type 0} where
  -- What the four bodies have in common: `_already_handled` in front, and behind every way through
  -- the rest the mark and the commit.
  unfoldable pub once : ℕ → Exec (UnitOfWork F) (Unit {0}) → Exec (UnitOfWork F) (Unit {0})
  once event_id body = do
    handled ← gets (seen event_id)
    if handled then pure tt else do body; modify (mark event_id); modify commit

module _ {F : Type 0} ⦃r : Runtime F⦄ where
  -- `await uow.preferences.get(user_id) or UserPreference.blank(user_id)`
  unfoldable pub preference_of : ℕ → UnitOfWork F → UserPreference F
  preference_of user_id uow = get_or (get_preference user_id uow) (blank user_id)

  -- One user's profile with one action folded in.
  unfoldable pub credit : GameProfile F → SignalKind → ℕ → ℕ → Exec (UnitOfWork F) (Unit {0})
  unfolding preference_of
  credit game kind at user_id = do
    preference ← gets (preference_of user_id)
    updated ← lift (observe preference game kind at)
    modify (upsert_preference updated)

  unfoldable pub credit_all : GameProfile F → ℕ → List ℕ → Exec (UnitOfWork F) (Unit {0})
  unfolding credit
  credit_all game at [] = pure tt
  credit_all game at (user_id ∷ owners) =
      credit game purchase at user_id >> credit_all game at owners

  -- `_backfill`
  unfoldable pub backfill : ℕ → ℕ → GameProfile F → Exec (UnitOfWork F) (Unit {0})
  unfolding credit_all
  backfill backfill_limit now game = do
    owners ← gets (uncounted_owners game.game_id backfill_limit)
    if is_empty owners
        then pure tt
        else do credit_all game now owners; modify (mark_counted game.game_id owners)

  unfoldable pub described : Description → Option (GameProfile F) → Result (GameProfile F)
  described d (some existing) = redescribed existing d.title d.genres d.tags d.description
  described d none =
      published d.game_id d.developer_id d.title d.genres d.tags d.description d.published_at

  unfoldable pub publish_body : ℕ → ℕ → Description → Exec (UnitOfWork F) (Unit {0})
  unfolding described backfill
  publish_body backfill_limit now d = do
    existing ← gets (get_game d.game_id)
    game ← lift (described d existing)
    modify (upsert_game game)
    backfill backfill_limit now game

  -- HandleGamePublishedUseCase
  unfoldable pub game_published :
      (backfill_limit now event_id : ℕ) → Description → Exec (MemoryStore F) (Unit {0})
  unfolding once publish_body with_uow
  game_published backfill_limit now event_id d =
      with_uow (once event_id (publish_body backfill_limit now d))

  unfoldable pub withdraw : Option (GameProfile F) → Exec (UnitOfWork F) (Unit {0})
  withdraw none = pure tt
  withdraw (some game) = do changed ← lift (withdrawn game); modify (upsert_game changed)

  unfoldable pub withdraw_body : ℕ → Exec (UnitOfWork F) (Unit {0})
  unfolding withdraw
  withdraw_body game_id = do game ← gets (get_game game_id); withdraw game

  -- HandleGameWithdrawnUseCase
  unfoldable pub game_withdrawn : (event_id game_id : ℕ) → Exec (MemoryStore F) (Unit {0})
  unfolding once withdraw_body with_uow
  game_withdrawn event_id game_id = with_uow (once event_id (withdraw_body game_id))

  unfoldable pub buy :
      (recipient_id game_id at : ℕ) → Option (GameProfile F) → Exec (UnitOfWork F) (Unit {0})
  unfolding credit
  buy recipient_id game_id at none = modify (record_ownership recipient_id game_id false)
  buy recipient_id game_id at (some game) = do
    credit game purchase at recipient_id
    modify (record_ownership recipient_id game_id true)
    changed ← lift (bought game)
    modify (upsert_game changed)

  unfoldable pub purchase_body :
      (recipient_id game_id : ℕ) → Option ℕ → (now : ℕ) → Exec (UnitOfWork F) (Unit {0})
  unfolding buy
  purchase_body recipient_id game_id occurred_at now = do
    game ← gets (get_game game_id)
    buy recipient_id game_id (get_or occurred_at now) game

  -- HandlePurchaseCompletedUseCase
  unfoldable pub purchase_completed :
      (now event_id recipient_id game_id : ℕ) → Option ℕ → Exec (MemoryStore F) (Unit {0})
  unfolding once purchase_body with_uow
  purchase_completed now event_id recipient_id game_id occurred_at =
      with_uow (once event_id (purchase_body recipient_id game_id occurred_at now))

  unfoldable pub review :
      (author_id : ℕ) → Bool → (at : ℕ) → Option (GameProfile F) → Exec (UnitOfWork F) (Unit {0})
  unfolding credit
  review author_id liked at none = pure tt
  review author_id liked at (some game) = credit game (review_kind liked) at author_id

  unfoldable pub review_body :
      (author_id game_id : ℕ) → Bool → Option ℕ → (now : ℕ) → Exec (UnitOfWork F) (Unit {0})
  unfolding review
  review_body author_id game_id liked occurred_at now = do
    game ← gets (get_game game_id)
    review author_id liked (get_or occurred_at now) game

  -- HandleReviewPostedUseCase
  unfoldable pub review_posted :
      (now event_id author_id game_id : ℕ) → Bool → Option ℕ → Exec (MemoryStore F) (Unit {0})
  unfolding once review_body with_uow
  review_posted now event_id author_id game_id liked occurred_at =
      with_uow (once event_id (review_body author_id game_id liked occurred_at now))

  -- The body of the handler of an event, and the handler.
  unfoldable pub body_of : (backfill_limit now : ℕ) → Inbound → Exec (UnitOfWork F) (Unit {0})
  body_of backfill_limit now (publication d) = publish_body backfill_limit now d
  body_of backfill_limit now (withdrawal game_id) = withdraw_body game_id
  body_of backfill_limit now (sale recipient_id game_id at) =
      purchase_body recipient_id game_id at now
  body_of backfill_limit now (opinion author_id game_id liked at) =
      review_body author_id game_id liked at now

  unfoldable pub handle :
      (backfill_limit now event_id : ℕ) → Inbound → Exec (MemoryStore F) (Unit {0})
  handle backfill_limit now event_id (publication d) = game_published backfill_limit now event_id d
  handle backfill_limit now event_id (withdrawal game_id) = game_withdrawn event_id game_id
  handle backfill_limit now event_id (sale recipient_id game_id at) =
      purchase_completed now event_id recipient_id game_id at
  handle backfill_limit now event_id (opinion author_id game_id liked at) =
      review_posted now event_id author_id game_id liked at
