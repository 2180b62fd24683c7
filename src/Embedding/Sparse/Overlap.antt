-- ===== src/Embedding/Sparse/Overlap.antt =====
-- The reasons that `overlap` gives: which names, and in which order.
use mathlib.Core.List.{Permᴰ}
use recommendation_service.Base.{
  ◌≡◌, true, false, ◌&&◌, List, arith, ◌∙◌, ap, contains, contains-filter,
}
use recommendation_service.Base.Dict.{keys}
use recommendation_service.Base.Sort.{sort-perm, sort-IsSorted, IsSorted, contains-perm}
use recommendation_service.Base.Text.{Text, text_eq, text_le_total, text_le_trans}
use recommendation_service.Embedding.Sparse.{
  Embedding, overlap, shared, is_positive, stronger, weight,
}
use recommendation_service.Runtime.{Runtime}
use recommendation_service.Runtime.Laws.{Ordered}

module _ {F : Type 0} ⦃r : Runtime F⦄ (o : Ordered F) where
  stronger_total : (e : Embedding F) (a b : Text) → stronger e a b ≡ false → stronger e b a ≡ true
  stronger_total e a b h = ground (
    arith,
    text_le_total a b,
    o.lt_lem (r.neg (weight e b)) (r.neg (weight e a)),
    o.lt_lem (r.neg (weight e a)) (r.neg (weight e b)),
    o.eq_lem (r.neg (weight e a)) (r.neg (weight e b)),
    o.eq_lem (r.neg (weight e b)) (r.neg (weight e a)),
  )

  stronger_trans :
      (e : Embedding F) (a b c : Text)
      → stronger e a b ≡ true
      → stronger e b c ≡ true
      → stronger e a c ≡ true
  stronger_trans e a b c h k = ground (
    arith,
    text_le_trans a b c,
    o.lt_lem (r.neg (weight e b)) (r.neg (weight e a)),
    o.lt_lem (r.neg (weight e c)) (r.neg (weight e b)),
    o.lt_lem (r.neg (weight e c)) (r.neg (weight e a)),
    o.eq_lem (r.neg (weight e b)) (r.neg (weight e a)),
    o.eq_lem (r.neg (weight e c)) (r.neg (weight e b)),
    o.eq_lem (r.neg (weight e c)) (r.neg (weight e a)),
  )

  -- Where floats compare as numbers do, and in whatever order the shared names are walked,
  -- `overlap` returns exactly the names that both vectors weigh positively, and none of them before
  -- a stronger one, or before an equally strong one with a smaller name.
  overlap_lem :
      (walks : (xs : List Text) → Permᴰ (r.set_order xs) xs) (a b : Embedding F)
      → ((name : Text)
          → contains (overlap a b) name ≡ (
              (contains (keys a.weights) name && contains (keys b.weights) name)
              && (is_positive a name && is_positive b name)))
        × IsSorted (stronger a) (overlap a b)
  unfolding overlap
  overlap_lem walks a b = (
    λ name.
        contains-perm name (sort-perm (stronger a) _)
        ∙ contains-filter (λ n. is_positive a n && is_positive b n) (shared a b) name
        ∙ ap (λ c. c && (is_positive a name && is_positive b name)) (names name),
    sort-IsSorted (stronger a) (stronger_total a) (stronger_trans a) _,
  )
    where
      names :
          (name : Text)
          → contains (shared a b) name
            ≡ (contains (keys a.weights) name && contains (keys b.weights) name)
      names name =
          contains-perm name (walks _)
          ∙ contains-filter (λ n. contains (keys b.weights) n) (keys a.weights) name
