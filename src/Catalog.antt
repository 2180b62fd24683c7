-- ===== src/Catalog.antt =====
-- `GameProfile` of domain/catalog/game_profile.py. An id is its UUID as a 128-bit number: `str` of a
-- UUID is fixed-width lower-case hexadecimal, so the order of the strings is that of the numbers.
-- A `datetime` is a number of ticks. `purchase_count` starts at 0 and only grows, so that it is a
-- natural number, and the guard against a negative count has no case here.
pub mod Laws
use recommendation_service.Base.{
  ℕ, ◌+◌, Bool, true, false, not, ◌&&◌, ◌||◌, Option, none, some, List, [], ◌∷◌, ◌++◌, ltb,
  if◌then◌else◌, length, take,
}
use recommendation_service.Base.Effects.{Result, ok, err, invariant_violation, and_then}
use recommendation_service.Base.Text.{Text, text, is_empty, strip, join}
use recommendation_service.Embedding.Dense.{DenseEmbedding, is_blank}
use recommendation_service.Embedding.Dense
use recommendation_service.Embedding.Sparse.{Embedding, feature, bag_of, has_no_weight}
use recommendation_service.Embedding.Sparse
use recommendation_service.Limits.{max_title_chars, max_description_chars}
use recommendation_service.Runtime.{Runtime}

pub record GameProfile (F : Type 0) : Type 0 where
  pub game_id : ℕ
  pub developer_id : ℕ
  pub title : Text
  pub genres : List Text
  pub tags : List Text
  pub description : Text
  pub published_at : Option ℕ
  pub is_published : Bool
  pub purchase_count : ℕ
  pub embedding : Embedding F
  pub dense : DenseEmbedding F

-- `[feature(kind, raw) for raw in labels if raw.strip()]`
unfoldable pub features : (Text → Text) → Text → List Text → Result (List Text)
features lower kind [] = ok []
features lower kind (raw ∷ labels) =
    let rest = features lower kind labels in
    if is_empty (strip raw)
    then rest
    else and_then (feature lower kind raw) λ f. and_then rest λ fs. ok (f ∷ fs)

-- `_trimmed`
unfoldable pub trimmed : Text → Text
trimmed description = take max_description_chars (strip description)

module _ {F : Type 0} ⦃r : Runtime F⦄ where
  -- `_embed`
  unfoldable pub embed : List Text → List Text → Result (Embedding F)
  unfolding features
  embed genres tags =
      and_then (features r.lower (text "genre") genres)
        λ gs. and_then (features r.lower (text "tag") tags) λ ts. ok (bag_of (gs ++ ts))

  -- `__post_init__`, which runs on every construction and on every `replace`
  unfoldable pub post_init : GameProfile F → Result (GameProfile F)
  post_init game =
      if is_empty (strip game.title)
      then err invariant_violation
      else if ltb max_title_chars (length game.title)
      then err invariant_violation
      else if has_no_weight game.embedding
          && (not (is_empty game.genres) || not (is_empty game.tags))
      then and_then (embed game.genres game.tags) (λ e. ok (record game { embedding = e }))
      else ok game

  unfoldable pub published :
      (game_id developer_id : ℕ) (title : Text) (genres tags : List Text) (description : Text)
      → Option ℕ
      → Result (GameProfile F)
  unfolding post_init
  published game_id developer_id title genres tags description published_at =
      and_then (embed genres tags) λ e. post_init (record {
        game_id = game_id;
        developer_id = developer_id;
        title = strip title;
        genres = genres;
        tags = tags;
        description = trimmed description;
        published_at = published_at;
        is_published = true;
        purchase_count = 0;
        embedding = e;
        dense = Dense.empty;
      })

  unfoldable pub redescribed :
      GameProfile F → Text → List Text → List Text → Text → Result (GameProfile F)
  unfolding post_init
  redescribed game title genres tags description = and_then (embed genres tags) λ e.
      post_init (record game {
        title = strip title;
        genres = genres;
        tags = tags;
        description = trimmed description;
        is_published = true;
        embedding = e;
        dense = Dense.empty;
      })

  unfoldable pub embedded : GameProfile F → DenseEmbedding F → Result (GameProfile F)
  unfolding post_init
  embedded game dense = post_init (record game { dense = dense })

  unfoldable pub bought : GameProfile F → Result (GameProfile F)
  unfolding post_init
  bought game = post_init (record game { purchase_count = game.purchase_count + 1 })

  unfoldable pub withdrawn : GameProfile F → Result (GameProfile F)
  unfolding post_init
  withdrawn game = post_init (record game { is_published = false })

-- One sentence for a non-empty list of labels.
labelled : Text → List Text → List Text
labelled label [] = []
labelled label (l ∷ labels) = (label ++ text ": " ++ join (text ", ") (l ∷ labels) ++ text ".") ∷ []

module _ {F : Type 0} where
  abbrev pub is_recommendable : GameProfile F → Bool
  is_recommendable game = game.is_published

  abbrev pub needs_embedding : GameProfile F → Bool
  needs_embedding game = game.is_published && is_blank game.dense

  -- What the embedding provider is shown.
  pub embedding_text : GameProfile F → Text
  unfolding labelled
  embedding_text game = join (text " ") (
      game.title ∷ labelled (text "Genres") game.genres
      ++ labelled (text "Tags") game.tags
      ++ (if is_empty game.description then [] else game.description ∷ []))
