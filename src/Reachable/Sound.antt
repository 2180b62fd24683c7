-- ===== src/Reachable/Sound.antt =====
-- The well-formedness of the store, and what a step of a unit of work may do to it.
use recommendation_service.Base.{
  ℕ, ◌≡◌, refl, subst, some, List, [], ◌∷◌, All, nat_eq, Bool-cases, inl, inr,
}
use recommendation_service.Base.Dict.{
  Dict, lookup, put, update, or_else, IsDict, put-IsDict, All-put, All-lookup, Option-cases,
}
use recommendation_service.Base.Effects.{Result, ok, err, Exec, lift, modify, continue, ◌>>=◌}
use recommendation_service.Catalog.{GameProfile}
use recommendation_service.Catalog.Laws.{IsProfile}
use recommendation_service.Preference.{UserPreference}
use recommendation_service.Preference.History.{IsPreference}
use recommendation_service.Recommendation.{Recommendation, checked}
use recommendation_service.Runtime.{Runtime}
use recommendation_service.Store.{MemoryStore, UnitOfWork, begin, commit, close, rollback, with_uow}
use recommendation_service.Store.Repositories.{
  get_game, upsert_game, get_preference, upsert_preference, replace_for,
}

some-eq : {A : Type 0} {a b : A} → some a ≡ some b → a ≡ b
some-eq h = cc h

-- The keys differ, and every entry meets a predicate.
abbrev pub Entries : {V : Type 0} → (ℕ × V → Type 0) → Dict ℕ V → Type 0
Entries P d = IsDict d × All P d

module _ {V : Type 0} (P : ℕ × V → Type 0) where
  put-Entries : (k : ℕ) (v : V) (d : Dict ℕ V) → P (k, v) → Entries P d → Entries P (put k v d)
  put-Entries k v d p h = (put-IsDict k v d h.0, All-put P k v d p h.1)

  update-Entries : (d new : Dict ℕ V) → Entries P d → All P new → Entries P (update d new)
  unfolding update
  update-Entries d [] h k = h
  update-Entries d (e ∷ new) h k =
      update-Entries (put e.0 e.1 d) new (put-Entries e.0 e.1 d k.0 h) k.1

  -- What a lookup finds, in the staged entries or else in the stored ones.
  lookup-Entries :
      (k : ℕ) (v : V) (staged stored : Dict ℕ V)
      → All P staged
      → All P stored
      → or_else (lookup k staged) (lookup k stored) ≡ some v
      → P (k, v)
  lookup-Entries k v staged stored h s e = elim (Option-cases (lookup k staged)) [
    | inl none_staged ↦ All-lookup P k v stored s (rw none_staged at e)
    | inr (w, found) ↦
        subst (λ x. P (k, x)) (some-eq (rw found at e)) (All-lookup P k w staged h found)
  ]

module _ {F : Type 0} ⦃r : Runtime F⦄ where
  -- A game stands under its id and is well formed; so does a profile; and a list holds checked
  -- recommendations of its user.
  abbrev pub GameEntry : ℕ × GameProfile F → Type 0
  GameEntry e = (e.0 ≡ e.1.game_id) × IsProfile e.1

  abbrev pub PreferenceEntry : ℕ × UserPreference F → Type 0
  PreferenceEntry e = (e.0 ≡ e.1.user_id) × IsPreference e.1

  abbrev pub ListEntry : ℕ × List (Recommendation F) → Type 0
  ListEntry e = All (λ i. (i.user_id ≡ e.0) × (checked i ≡ ok i)) e.1

  pub record WellFormed (s : MemoryStore F) : Type 0 where
    pub games : Entries GameEntry s.games
    pub preferences : Entries PreferenceEntry s.preferences
    pub recommendations : Entries ListEntry s.recommendations

  -- The store, and what is staged over it.
  pub record Sound (u : UnitOfWork F) : Type 0 where
    pub store : WellFormed u.store
    pub games : Entries GameEntry u.games
    pub preferences : Entries PreferenceEntry u.preferences
    pub recommendations : Entries ListEntry u.recommendations

  abbrev pub Keeps : {A : Type 0} → Exec (UnitOfWork F) A → Type 0
  Keeps m = (u : UnitOfWork F) → Sound u → Sound (m u).1

  pub bind-Keeps :
      {A B : Type 0} (m : Exec (UnitOfWork F) A) (f : A → Exec (UnitOfWork F) B)
      → Keeps m
      → ((a : A) → Keeps (f a))
      → Keeps (m >>= f)
  bind-Keeps {A} {B} m f k next u h = after (m u) (k u h)
    where
      after : (x : Result A × UnitOfWork F) → Sound x.1 → Sound (continue f x).1
      after (ok a, t) k = next a t k
      after (err e, t) k = k

  pub lift-Keeps :
      {A B : Type 0} (m : Result A) (f : A → Exec (UnitOfWork F) B)
      → ((a : A) → m ≡ ok a → Keeps (f a))
      → Keeps (lift m >>= f)
  lift-Keeps (ok a) f next u h = next a refl u h
  lift-Keeps (err e) f next u h = h

  pub found-IsProfile :
      (id : ℕ) (u : UnitOfWork F) (g : GameProfile F)
      → Sound u
      → get_game id u ≡ some g
      → IsProfile g
  unfolding get_game
  found-IsProfile id u g h e =
      (lookup-Entries GameEntry id g u.games u.store.games h.games.1 h.store.games.1 e).1

  pub found-IsPreference :
      (id : ℕ) (u : UnitOfWork F) (p : UserPreference F)
      → Sound u
      → get_preference id u ≡ some p
      → IsPreference p
  unfolding get_preference
  found-IsPreference id u p h e =
      (lookup-Entries PreferenceEntry id p u.preferences u.store.preferences h.preferences.1
        h.store.preferences.1 e).1

  pub upsert_game-Keeps : (g : GameProfile F) → IsProfile g → Keeps (modify (upsert_game g))
  unfolding upsert_game
  upsert_game-Keeps g v u h = record {
    store = h.store;
    games = put-Entries GameEntry g.game_id g u.games (refl, v) h.games;
    preferences = h.preferences;
    recommendations = h.recommendations;
  }

  pub upsert_preference-Keeps :
      (p : UserPreference F) → IsPreference p → Keeps (modify (upsert_preference p))
  unfolding upsert_preference
  upsert_preference-Keeps p v u h = record {
    store = h.store;
    games = h.games;
    preferences = put-Entries PreferenceEntry p.user_id p u.preferences (refl, v) h.preferences;
    recommendations = h.recommendations;
  }

  pub replace_for-Keeps :
      (user_id : ℕ) (items : List (Recommendation F))
      → ListEntry (user_id, items)
      → Keeps (modify (replace_for user_id items))
  unfolding replace_for
  replace_for-Keeps user_id items v u h = record {
    store = h.store;
    games = h.games;
    preferences = h.preferences;
    recommendations = put-Entries ListEntry user_id items u.recommendations v h.recommendations;
  }

  pub commit-Keeps : Keeps (modify commit)
  unfolding commit
  commit-Keeps u h = record {
    store = record {
      games = update-Entries GameEntry u.store.games u.games h.store.games h.games.1;
      preferences =
          update-Entries PreferenceEntry u.store.preferences u.preferences h.store.preferences
            h.preferences.1;
      recommendations =
          update-Entries ListEntry u.store.recommendations u.recommendations h.store.recommendations
            h.recommendations.1;
    };
    games = h.games;
    preferences = h.preferences;
    recommendations = h.recommendations;
  }

  close-WellFormed : (u : UnitOfWork F) → WellFormed u.store → WellFormed (close u).store
  unfolding close rollback
  close-WellFormed u h = elim (Bool-cases u.committed) [ inl e ↦ rw e h | inr e ↦ rw e h ]

  -- A unit of work whose steps keep what is sound leaves a well-formed store well formed.
  pub with_uow-WellFormed :
      {A : Type 0} (body : Exec (UnitOfWork F) A) (s : MemoryStore F)
      → Keeps body
      → WellFormed s
      → WellFormed (with_uow body s).1
  unfolding with_uow
  with_uow-WellFormed body s k h =
      close-WellFormed (body (begin s)).1
        (k (begin s) (record {
          store = h;
          games = (tt, tt);
          preferences = (tt, tt);
          recommendations = (tt, tt);
        })).store
