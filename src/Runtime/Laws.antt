-- ===== src/Runtime/Laws.antt =====
-- The laws of comparison that hold of floats, NaN excepted.
use recommendation_service.Base.{ℕ, ◌+◌, ◌*◌, ◌≡◌, ltb, leb, nat_beq}
use recommendation_service.Runtime.{Runtime}

-- The doubles that are not NaN, numbered in ascending order (with one number for both zeros):
-- comparison is that of the numbers, and negation mirrors them about zero's.
pub record Ordered (F : Type 0) ⦃r : Runtime F⦄ : Type 0 where
  pub position : F → ℕ
  pub lt_lem : (a b : F) → r.lt a b ≡ ltb (position a) (position b)
  pub le_lem : (a b : F) → r.le a b ≡ leb (position a) (position b)
  pub eq_lem : (a b : F) → r.eq a b ≡ nat_beq (position a) (position b)
  pub neg_lem : (a : F) → position (r.neg a) + position a ≡ 2 * position (r.lit 0 0)
