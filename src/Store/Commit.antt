-- ===== src/Store/Commit.antt =====
-- What a commit makes of the staged writes, seen through lookups.
use recommendation_service.Base.{
  ℕ, ◌≡◌, refl, Bool, true, false, ◌&&◌, ◌||◌, Option, some, List, [], ◌∷◌, map, arith,
  if◌then◌else◌, nat_beq, nat_eq, contains, ◌∙◌, ap,
}
use recommendation_service.Base.Dict.{Dict, lookup, put, get_or, IsDict, lookup-put, lookup-update}
use recommendation_service.Store.{MemoryStore, UnitOfWork, add_ownership, add_ownerships, commit}
use recommendation_service.Store.Repositories.{get_game, get_preference}

-- Whether a purchase of a game by a user is on record, and whether it was credited to the taste.
unfoldable pub flag_in : Dict ℕ (Dict ℕ Bool) → (user_id game_id : ℕ) → Option Bool
flag_in ownerships user_id game_id = lookup user_id (get_or (lookup game_id ownerships) [])

abbrev pub flag : {F : Type 0} → MemoryStore F → (user_id game_id : ℕ) → Option Bool
flag store = flag_in store.ownerships

-- One staged row: it raises the flag of its user and game, and never lowers it.
abbrev pub raised : (user_id game_id : ℕ) → ℕ × ℕ × Bool → Option Bool → Option Bool
raised user_id game_id (u, g, counted) before =
    if nat_beq u user_id && nat_beq g game_id then some (get_or before false || counted) else before

abbrev pub raised_all : (user_id game_id : ℕ) → List (ℕ × ℕ × Bool) → Option Bool → Option Bool
raised_all user_id game_id [] before = before
raised_all user_id game_id (o ∷ staged) before =
    raised_all user_id game_id staged (raised user_id game_id o before)

flag-add_ownership :
    (user_id game_id : ℕ) (o : ℕ × ℕ × Bool) (d : Dict ℕ (Dict ℕ Bool))
    → flag_in (add_ownership o d) user_id game_id
      ≡ raised user_id game_id o (flag_in d user_id game_id)
unfolding flag_in add_ownership
flag-add_ownership user_id game_id (u, g, counted) d =
    let owners : Dict ℕ Bool = get_or (lookup g d) [] in
    let new : Bool = get_or (lookup u owners) false || counted in
    ground (arith, lookup-put game_id g (put u new owners) d, lookup-put user_id u new owners)

-- The flags after a commit: every staged row in turn.
pub flag-add_ownerships :
    (user_id game_id : ℕ) (staged : List (ℕ × ℕ × Bool)) (d : Dict ℕ (Dict ℕ Bool))
    → flag_in (add_ownerships staged d) user_id game_id
      ≡ raised_all user_id game_id staged (flag_in d user_id game_id)
unfolding add_ownerships
flag-add_ownerships user_id game_id [] d = refl
flag-add_ownerships user_id game_id (o ∷ staged) d =
    flag-add_ownerships user_id game_id staged (add_ownership o d)
    ∙ ap (raised_all user_id game_id staged) (flag-add_ownership user_id game_id o d)

pub raised_all-true :
    (user_id game_id : ℕ) (staged : List (ℕ × ℕ × Bool))
    → raised_all user_id game_id staged (some true) ≡ some true
raised_all-true user_id game_id [] = refl
raised_all-true user_id game_id ((u, g, counted) ∷ staged) =
    ap (raised_all user_id game_id staged) (ground arith) ∙ raised_all-true user_id game_id staged

-- Rows of one game that are all counted raise the flags of their users and no other.
pub raised_all-counted :
    (user_id game_id g : ℕ) (users : List ℕ) (before : Option Bool)
    → raised_all user_id game_id (map (λ u. (u, g, true)) users) before
      ≡ (if contains users user_id && nat_beq g game_id then some true else before)
unfolding contains
raised_all-counted user_id game_id g [] before = refl
raised_all-counted user_id game_id g (u ∷ users) before =
    ground (
      arith,
      raised_all-counted user_id game_id g users (raised user_id game_id (u, g, true) before),
    )

module _ {F : Type 0} (u : UnitOfWork F) where
  -- Once a purchase has been credited, no commit takes the mark away.
  pub commit_keeps_credit :
      (user_id game_id : ℕ)
      → flag u.store user_id game_id ≡ some true
      → flag (commit u).store user_id game_id ≡ some true
  unfolding commit
  commit_keeps_credit user_id game_id h =
      flag-add_ownerships user_id game_id u.ownerships u.store.ownerships
      ∙ ap (raised_all user_id game_id u.ownerships) h
      ∙ raised_all-true user_id game_id u.ownerships

  -- After a commit the store holds what the repositories showed before it.
  pub games-commit :
      (game_id : ℕ) → IsDict u.games → lookup game_id (commit u).store.games ≡ get_game game_id u
  unfolding commit get_game
  games-commit game_id h = lookup-update game_id u.store.games u.games h

  pub preferences-commit :
      (user_id : ℕ)
      → IsDict u.preferences
      → lookup user_id (commit u).store.preferences ≡ get_preference user_id u
  unfolding commit get_preference
  preferences-commit user_id h = lookup-update user_id u.store.preferences u.preferences h
