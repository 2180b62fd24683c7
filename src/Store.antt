-- ===== src/Store.antt =====
-- infrastructure/persistence/memory: the store, the unit of work that stages writes until a commit,
-- and the repositories over both.
pub mod Repositories
pub mod Commit
use recommendation_service.Base.{
  ℕ, Bool, true, false, not, ◌&&◌, ◌||◌, Option, none, some, List, [], ◌∷◌, ◌++◌, map,
  if◌then◌else◌, ◌==◌, nat_eq, contains,
}
use recommendation_service.Base.Dict.{Dict, lookup, put, update, get_or}
use recommendation_service.Base.Effects.{Result, Exec}
use recommendation_service.Base.Text.{Text}
use recommendation_service.Catalog.{GameProfile}
use recommendation_service.Outbox.{OutboxRecord}
use recommendation_service.Preference.{UserPreference}
use recommendation_service.Recommendation.{Recommendation}

pub record MemoryStore (F : Type 0) : Type 0 where
  pub games : Dict ℕ (GameProfile F)
  pub preferences : Dict ℕ (UserPreference F)
  -- game -> owner -> whether the purchase also reached that owner's taste vector
  pub ownerships : Dict ℕ (Dict ℕ Bool)
  pub recommendations : Dict ℕ (List (Recommendation F))
  pub outbox : Dict ℕ (OutboxRecord F)
  pub processed_events : List ℕ

pub record UnitOfWork (F : Type 0) : Type 0 where
  pub store : MemoryStore F
  pub committed : Bool
  pub games : Dict ℕ (GameProfile F)
  pub preferences : Dict ℕ (UserPreference F)
  pub ownerships : List (ℕ × ℕ × Bool)
  pub recommendations : Dict ℕ (List (Recommendation F))
  pub events : List (OutboxRecord F)
  pub processed : List ℕ

-- `owners[user_id] = owners.get(user_id, False) or counted`, in the game's own dictionary
unfoldable pub add_ownership : ℕ × ℕ × Bool → Dict ℕ (Dict ℕ Bool) → Dict ℕ (Dict ℕ Bool)
add_ownership (user_id, game_id, counted) ownerships =
    let owners : Dict ℕ Bool = get_or (lookup game_id ownerships) [] in
    put game_id (put user_id (get_or (lookup user_id owners) false || counted) owners) ownerships

unfoldable pub add_ownerships : List (ℕ × ℕ × Bool) → Dict ℕ (Dict ℕ Bool) → Dict ℕ (Dict ℕ Bool)
unfolding add_ownership
add_ownerships [] ownerships = ownerships
add_ownerships (o ∷ staged) ownerships = add_ownerships staged (add_ownership o ownerships)

-- `set |= set`
unfoldable pub union : List ℕ → List ℕ → List ℕ
union seen [] = seen
union seen (x ∷ new) = union (if contains seen x then seen else x ∷ seen) new

module _ {F : Type 0} where
  unfoldable pub add_letters :
      List (OutboxRecord F) → Dict ℕ (OutboxRecord F) → Dict ℕ (OutboxRecord F)
  add_letters [] outbox = outbox
  add_letters (letter ∷ letters) outbox = add_letters letters (put letter.id letter outbox)

  abbrev pub begin : MemoryStore F → UnitOfWork F
  begin store = record {
    store = store;
    committed = false;
    games = [];
    preferences = [];
    ownerships = [];
    recommendations = [];
    events = [];
    processed = [];
  }

  unfoldable pub commit : UnitOfWork F → UnitOfWork F
  unfolding add_ownerships union add_letters
  commit uow = record uow {
    store = record {
      games = update uow.store.games uow.games;
      preferences = update uow.store.preferences uow.preferences;
      ownerships = add_ownerships uow.ownerships uow.store.ownerships;
      recommendations = update uow.store.recommendations uow.recommendations;
      outbox = add_letters uow.events uow.store.outbox;
      processed_events = union uow.store.processed_events uow.processed;
    };
    committed = true;
  }

  unfoldable pub rollback : UnitOfWork F → UnitOfWork F
  rollback uow = record uow {
    games = [];
    preferences = [];
    ownerships = [];
    recommendations = [];
    events = [];
    processed = [];
  }

  -- `__aexit__`, which lets an exception pass
  unfoldable pub close : UnitOfWork F → UnitOfWork F
  unfolding rollback
  close uow = if not uow.committed then rollback uow else uow

  -- `async with self._uow_factory() as uow: body`
  unfoldable pub with_uow : {A : Type 0} → Exec (UnitOfWork F) A → Exec (MemoryStore F) A
  unfolding close
  with_uow body store = let (result, uow) = body (begin store) in (result, (close uow).store)
