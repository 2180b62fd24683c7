-- ===== src/Catalog/Laws.antt =====
-- A stored profile passes its own checks, so that `bought`, `embedded` and `withdrawn` of it do not
-- raise and change one field each.
use recommendation_service.Base.{
  ℕ, ◌+◌, ◌≤◌, ◌≡◌, true, false, not, ◌&&◌, ◌||◌, List, arith, length, Option,
}
use recommendation_service.Base.Effects.{ok, and_then-eq_ok}
use recommendation_service.Base.Text.{Text, is_empty, strip}
use recommendation_service.Catalog.{
  GameProfile, embed, post_init, published, redescribed, embedded, bought, withdrawn,
}
use recommendation_service.Embedding.Dense.{DenseEmbedding}
use recommendation_service.Embedding.Dense
use recommendation_service.Embedding.Sparse.{has_no_weight}
use recommendation_service.Limits.{max_title_chars}
use recommendation_service.Runtime.{Runtime}

module _ {F : Type 0} ⦃r : Runtime F⦄ where
  -- The title is there and in bounds. The vector is what `embed` makes of a game without a weight.
  pub record IsProfile (game : GameProfile F) : Type 0 where
    pub titled : is_empty (strip game.title) ≡ false
    pub in_bounds : length game.title ≤ max_title_chars
    pub described :
        (has_no_weight game.embedding && (not (is_empty game.genres) || not (is_empty game.tags)))
          ≡ true
        → embed game.genres game.tags ≡ ok game.embedding

  pub post_init-IsProfile :
      (game : GameProfile F) (g : GameProfile F) → post_init game ≡ ok g → IsProfile g
  unfolding post_init
  post_init-IsProfile game g h = record {
    titled = ground arith;
    in_bounds = ground arith;
    described = λ c. ground arith;
  }

  -- `post_init` touches nothing but the vector.
  pub post_init-keeps :
      (game : GameProfile F) (g : GameProfile F)
      → post_init game ≡ ok g
      → g ≡ record game { embedding = g.embedding }
  unfolding post_init
  post_init-keeps game g h = ground arith

  pub post_init_ok : (game : GameProfile F) → IsProfile game → post_init game ≡ ok game
  unfolding post_init
  post_init_ok game v = ground (arith, v.described)

  -- On a well-formed profile the three small updates succeed, and each changes its one field.
  pub updates_succeed :
      (game : GameProfile F) (dense : DenseEmbedding F)
      → IsProfile game
      → (bought game ≡ ok (record game { purchase_count = game.purchase_count + 1 }))
        × (withdrawn game ≡ ok (record game { is_published = false }))
        × (embedded game dense ≡ ok (record game { dense = dense }))
  unfolding bought withdrawn embedded
  updates_succeed game dense v = (
    post_init_ok _ (record { titled = v.titled; in_bounds = v.in_bounds; described = v.described }),
    post_init_ok _ (record { titled = v.titled; in_bounds = v.in_bounds; described = v.described }),
    post_init_ok _ (record { titled = v.titled; in_bounds = v.in_bounds; described = v.described }),
  )

  -- `published`, where it succeeds: a well-formed profile of that game, on sale and never bought.
  pub published-IsProfile :
      (game_id developer_id : ℕ) (title : Text) (genres tags : List Text) (description : Text)
      (at : Option ℕ) (g : GameProfile F)
      → published game_id developer_id title genres tags description at ≡ ok g
      → IsProfile g × (g.game_id ≡ game_id) × (g.purchase_count ≡ 0) × (g.is_published ≡ true)
  unfolding published
  published-IsProfile game_id developer_id title genres tags description at g h =
      let (e, made, rest) = and_then-eq_ok (embed genres tags) _ h in
      let same = post_init-keeps _ g rest in
      (post_init-IsProfile _ g rest, cc same, cc same, cc same)

  -- `redescribed`, where it succeeds: a well-formed profile on sale, with the identity and the
  -- purchase history of the old one, and queued for a new dense vector.
  pub redescribed-keeps :
      (game : GameProfile F) (title : Text) (genres tags : List Text) (description : Text)
      (g : GameProfile F)
      → redescribed game title genres tags description ≡ ok g
      → IsProfile g
        × (g.game_id ≡ game.game_id)
        × (g.purchase_count ≡ game.purchase_count)
        × (g.is_published ≡ true)
        × (g.dense ≡ Dense.empty)
  unfolding redescribed
  redescribed-keeps game title genres tags description g h =
      let (e, made, rest) = and_then-eq_ok (embed genres tags) _ h in
      let same = post_init-keeps _ g rest in
      (post_init-IsProfile _ g rest, cc same, cc same, cc same, cc same)
