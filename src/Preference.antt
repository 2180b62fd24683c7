-- ===== src/Preference.antt =====
-- domain/preference: what one user is believed to like.
pub mod History
pub mod Rebuild
pub mod Action
use recommendation_service.Base.{
  ℕ, ◌+◌, Bool, true, false, not, ◌||◌, Option, none, some, List, [], ◌∷◌, ◌++◌, map, reverse,
  nat_beq, if◌then◌else◌, nat_eq, contains, take_last, dedup,
}
use recommendation_service.Base.Dict.{Dict, lookup}
use recommendation_service.Base.Effects.{Result, ok, err, and_then}
use recommendation_service.Base.Text.{is_empty}
use recommendation_service.Catalog.{GameProfile}
use recommendation_service.Embedding.Dense.{DenseEmbedding, is_blank}
use recommendation_service.Embedding.Dense
use recommendation_service.Embedding.Sparse.{Embedding, has_no_weight}
use recommendation_service.Embedding.Sparse
use recommendation_service.Limits.{max_signal_history}
use recommendation_service.Runtime.{Runtime}

pub data SignalKind : Type 0 where
  purchase review_like review_dislike : SignalKind

pub record SignalRecord (F : Type 0) : Type 0 where
  pub game_id : ℕ
  pub weight : F

pub record UserPreference (F : Type 0) : Type 0 where
  pub user_id : ℕ
  pub taste : Embedding F
  pub taste_dense : DenseEmbedding F
  -- the `frozenset` of owned games
  pub owned : List ℕ
  pub history : List (SignalRecord F)
  pub signal_count : ℕ
  pub updated_at : Option ℕ

-- `owned | {game_id}`
unfoldable pub add_member : ℕ → List ℕ → List ℕ
add_member x xs = if contains xs x then xs else x ∷ xs

abbrev pub owned_after : SignalKind → ℕ → List ℕ → List ℕ
owned_after purchase game_id owned = add_member game_id owned
owned_after review_like game_id owned = owned
owned_after review_dislike game_id owned = owned

abbrev pub owns : {F : Type 0} → UserPreference F → ℕ → Bool
owns preference game_id = contains preference.owned game_id

-- Most recent first, and each game once.
unfoldable pub remembered_games : {F : Type 0} → UserPreference F → List ℕ
remembered_games preference = dedup (map (λ s. s.game_id) (reverse preference.history))

module _ {F : Type 0} ⦃r : Runtime F⦄ where
  unfoldable pub weight_of : SignalKind → F
  weight_of purchase = r.lit 1 0
  weight_of review_like = r.lit 5 1
  weight_of review_dislike = r.neg (r.lit 3 1)

  unfoldable pub blank : ℕ → UserPreference F
  blank user_id = record {
    user_id = user_id;
    taste = Sparse.empty;
    taste_dense = Dense.empty;
    owned = [];
    history = [];
    signal_count = 0;
    updated_at = none;
  }

  abbrev pub is_cold : UserPreference F → Bool
  is_cold preference = nat_beq preference.signal_count 0 || has_no_weight preference.taste

  -- One action folded in. The dense vectors may differ in dimension, and then their sum raises.
  unfoldable pub observe :
      UserPreference F → GameProfile F → SignalKind → ℕ → Result (UserPreference F)
  observe preference game kind at =
      let signal : SignalRecord F = record { game_id = game.game_id; weight = weight_of kind } in
      and_then (Dense.plus preference.taste_dense game.dense (weight_of kind)) λ dense.
        ok (record preference {
          taste = Sparse.plus preference.taste game.embedding (weight_of kind);
          taste_dense = dense;
          owned = owned_after kind game.game_id preference.owned;
          history = take_last max_signal_history (preference.history ++ signal ∷ []);
          signal_count = preference.signal_count + 1;
          updated_at = some at;
        })

  -- `vector is not None and not vector.is_empty`
  abbrev pub usable : Option (DenseEmbedding F) → Option (DenseEmbedding F)
  usable none = none
  usable (some v) = if is_blank v then none else some v

  abbrev pub add_usable :
      DenseEmbedding F → F → Option (DenseEmbedding F) → Result (DenseEmbedding F)
  add_usable rebuilt weight none = ok rebuilt
  add_usable rebuilt weight (some v) = Dense.plus rebuilt v weight

  -- The loop of `rebuilt_in` over the history.
  unfoldable pub rebuild :
      Dict ℕ (DenseEmbedding F)
      → DenseEmbedding F
      → List (SignalRecord F)
      → Result (DenseEmbedding F)
  rebuild space rebuilt [] = ok rebuilt
  rebuild space rebuilt (s ∷ history) =
      and_then (add_usable rebuilt s.weight (usable (lookup s.game_id space)))
        λ next. rebuild space next history

  unfoldable pub rebuilt_in :
      UserPreference F → Dict ℕ (DenseEmbedding F) → Result (UserPreference F)
  unfolding rebuild
  rebuilt_in preference space =
      and_then (rebuild space Dense.empty preference.history)
        λ rebuilt. ok (record preference { taste_dense = rebuilt })
