-- ===== src/Scoring/Order.antt =====
-- The keys by which games are sorted order them totally, and tie only where the ids agree.
use recommendation_service.Base.{◌≡◌, true, false, ltb, nat_beq, if◌then◌else◌, arith}
use recommendation_service.Catalog.{GameProfile}
use recommendation_service.Runtime.{Runtime}
use recommendation_service.Runtime.Laws.{Ordered}
use recommendation_service.Scoring.{ScoredGame, key_lt, ranks_before, blended, more_popular}

module _ {F : Type 0} where
  pub more_popular_total :
      (a b : GameProfile F) → more_popular a b ≡ false → more_popular b a ≡ true
  more_popular_total a b h = ground arith

  pub more_popular_trans :
      (a b c : GameProfile F)
      → more_popular a b ≡ true
      → more_popular b c ≡ true
      → more_popular a c ≡ true
  more_popular_trans a b c h k = ground arith

  pub more_popular_ties :
      (a b : GameProfile F)
      → more_popular a b ≡ true
      → more_popular b a ≡ true
      → a.game_id ≡ b.game_id
  more_popular_ties a b h k = ground arith

module _ {F : Type 0} ⦃r : Runtime F⦄ (o : Ordered F) where
  -- `key_lt` in terms of the positions of the floats.
  pub key_lt_iff :
      (x y : F) (b a : GameProfile F)
      → key_lt x b y a ≡ (
          if nat_beq (o.position x) (o.position y)
          then (if nat_beq b.purchase_count a.purchase_count
              then ltb b.game_id a.game_id
              else ltb a.purchase_count b.purchase_count)
          else ltb (o.position y) (o.position x))
  key_lt_iff x y b a =
      ground (
        arith,
        o.eq_lem (r.neg x) (r.neg y),
        o.lt_lem (r.neg x) (r.neg y),
        o.neg_lem x,
        o.neg_lem y,
      )

  pub ranks_before_total : (a b : ScoredGame F) → ranks_before a b ≡ false → ranks_before b a ≡ true
  ranks_before_total a b h = ground (
    arith,
    key_lt_iff (blended b) (blended a) b.game a.game,
    key_lt_iff (blended a) (blended b) a.game b.game,
  )

  pub ranks_before_trans :
      (a b c : ScoredGame F)
      → ranks_before a b ≡ true
      → ranks_before b c ≡ true
      → ranks_before a c ≡ true
  ranks_before_trans a b c h k = ground (
    arith,
    key_lt_iff (blended b) (blended a) b.game a.game,
    key_lt_iff (blended c) (blended b) c.game b.game,
    key_lt_iff (blended c) (blended a) c.game a.game,
  )

  pub ranks_before_ties :
      (a b : ScoredGame F)
      → ranks_before a b ≡ true
      → ranks_before b a ≡ true
      → a.game.game_id ≡ b.game.game_id
  ranks_before_ties a b h k = ground (
    arith,
    key_lt_iff (blended b) (blended a) b.game a.game,
    key_lt_iff (blended a) (blended b) a.game b.game,
  )
