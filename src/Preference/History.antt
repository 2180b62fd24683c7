-- ===== src/Preference/History.antt =====
-- What one observed action does to a profile, and which games a profile remembers.
use mathlib.Core.List.Permᴰ
use recommendation_service.Base.{
  ℕ, ◌+◌, ◌≤◌, ◌≡◌, refl, Bool, true, false, ◌&&◌, ◌||◌, some, List, [], ◌∷◌, ◌++◌, map, reverse,
  arith, nat_beq, nat_eq, length, contains, Distinct, dedup-Distinct, contains-dedup, take_last,
  length-take_last, sym, ◌∙◌, ap, subst,
}
use recommendation_service.Base.Effects.{ok, and_then-eq_ok}
use recommendation_service.Base.Sort.{contains-perm}
use recommendation_service.Catalog.{GameProfile}
use recommendation_service.Embedding.Dense.{DenseEmbedding, Mismatch, plus_raises_iff}
use recommendation_service.Embedding.Dense
use recommendation_service.Embedding.Sparse
use recommendation_service.Embedding.Sparse.Weights.{IsEmbedding, plus-IsEmbedding}
use recommendation_service.Limits.{max_signal_history}
use recommendation_service.Preference
use recommendation_service.Preference.{
  SignalKind, SignalRecord, UserPreference, purchase, review_like, review_dislike, weight_of,
  add_member, owns, observe, remembered_games,
}
use recommendation_service.Runtime.{Runtime}

pub contains-add_member :
    (x y : ℕ) (xs : List ℕ) → contains (add_member x xs) y ≡ (nat_beq y x || contains xs y)
unfolding add_member contains
contains-add_member x y xs = ground (arith, contains-cong)
  where
    contains-cong : nat_beq y x ≡ true → contains xs y ≡ contains xs x
    contains-cong h = ap (contains xs) (ground arith)

abbrev pub is_purchase : SignalKind → Bool
is_purchase purchase = true
is_purchase review_like = false
is_purchase review_dislike = false

module _ {F : Type 0} ⦃r : Runtime F⦄ where
  -- A profile's sparse vector is well formed, and its history is bounded.
  pub record IsPreference (p : UserPreference F) : Type 0 where
    pub taste : IsEmbedding p.taste
    pub bounded : length p.history ≤ max_signal_history

  -- What `observe` returns, where it returns.
  pub record Observed (p : UserPreference F) (game : GameProfile F) (kind : SignalKind) (at : ℕ)
      (q : UserPreference F) : Type 0 where
    pub user : q.user_id ≡ p.user_id
    pub counted : q.signal_count ≡ p.signal_count + 1
    pub stamped : q.updated_at ≡ some at
    pub taste : q.taste ≡ Sparse.plus p.taste game.embedding (weight_of kind)
    pub dense : Dense.plus p.taste_dense game.dense (weight_of kind) ≡ ok q.taste_dense
    pub history :
        q.history
        ≡ take_last max_signal_history
            (p.history ++ record { game_id = game.game_id; weight = weight_of kind } ∷ [])
    -- the new set of owned games: a purchase adds its game, a review adds nothing
    pub owned : (x : ℕ) → owns q x ≡ (is_purchase kind && nat_beq x game.game_id || owns p x)

  owned_lem :
      (p : UserPreference F) (kind : SignalKind) (g x : ℕ)
      → contains (Preference.owned_after kind g p.owned) x
        ≡ (is_purchase kind && nat_beq x g || owns p x)
  owned_lem p purchase g x = contains-add_member g x p.owned
  owned_lem p review_like g x = refl
  owned_lem p review_dislike g x = refl

  -- The fields of the result, where `observe` returns.
  pub observe-Observed :
      (p : UserPreference F) (game : GameProfile F) (kind : SignalKind) (at : ℕ)
      (q : UserPreference F)
      → observe p game kind at ≡ ok q
      → Observed p game kind at q
  unfolding observe
  observe-Observed p game kind at q h =
      let (dense, summed, rest) =
        and_then-eq_ok (Dense.plus p.taste_dense game.dense (weight_of kind)) _ h in
      record {
        user = cc;
        counted = cc;
        stamped = cc;
        taste = cc;
        dense = cc;
        history = cc;
        owned = λ x. cc (owned_lem p kind game.game_id x);
      }

  -- After an action that succeeds on a profile with a well-formed sparse vector, the profile is
  -- well formed: its vector is, and its history is within its bound, however long it was.
  pub observe-IsPreference :
      (p : UserPreference F) (game : GameProfile F) (kind : SignalKind) (at : ℕ)
      (q : UserPreference F)
      → IsEmbedding p.taste
      → observe p game kind at ≡ ok q
      → IsPreference q
  observe-IsPreference p game kind at q w h =
      let o = observe-Observed p game kind at q h in
      record {
        taste = subst IsEmbedding (sym o.taste) (plus-IsEmbedding p.taste game.embedding _ w);
        bounded = omega (
          arith,
          ap length o.history,
          length-take_last max_signal_history
              (p.history ++ record { game_id = game.game_id; weight = weight_of kind } ∷ []),
        );
      }

module _ {F : Type 0} where
  abbrev pub games_of : List (SignalRecord F) → List ℕ
  games_of = map (λ s. s.game_id)

  contains-reverse :
      (history : List (SignalRecord F)) (a : ℕ)
      → contains (games_of (reverse history)) a ≡ contains (games_of history) a
  contains-reverse history a =
      contains-perm a (Permᴰ.map (λ (s : SignalRecord F). s.game_id) (Permᴰ.reverse history))

  -- The remembered games are those of the history, each once.
  pub remembered_games_lem :
      (p : UserPreference F)
      → Distinct (remembered_games p)
        × ((a : ℕ) → contains (remembered_games p) a ≡ contains (games_of p.history) a)
  unfolding remembered_games
  remembered_games_lem p = (
    dedup-Distinct (games_of (reverse p.history)),
    λ a. contains-dedup (games_of (reverse p.history)) a ∙ contains-reverse p.history a,
  )
