-- ===== src/Embedding/Sparse.antt =====
-- `feature` and `Embedding` of domain/policy/embedding.py: a bag of named weights.
pub mod Weights
pub mod Overlap
use recommendation_service.Base.{
  ℕ, ◌<◌, ◌≡◌, Bool, true, false, not, ◌&&◌, ◌||◌, Option, none, some, List, [], ◌∷◌, ◌++◌, map,
  ltb, if◌then◌else◌, length, filter, contains, dedup,
}
use recommendation_service.Base.Dict.{Dict, keys, values, lookup, put, get_or}
use recommendation_service.Base.Effects.{Result, ok, err, invariant_violation}
use recommendation_service.Base.Sort.{sort}
use recommendation_service.Base.Text.{Text, text, text_eq, text_le, is_empty, strip, split, join}
use recommendation_service.Limits.{max_feature_chars}
use recommendation_service.Runtime.{Runtime}

pub record Embedding (F : Type 0) : Type 0 where
  pub weights : Dict Text F

-- `lower` is `str.lower`.
unfoldable pub feature : (Text → Text) → Text → Text → Result Text
feature lower kind raw =
    let normalised = join (text "-") (split (lower (strip raw))) in
    let token = kind ++ text ":" ++ normalised in
    if is_empty normalised
    then err invariant_violation
    else if ltb max_feature_chars (length token)
    then err invariant_violation
    else ok token

module _ {F : Type 0} ⦃r : Runtime F⦄ where
  abbrev pub zero_weight : F
  zero_weight = r.lit 0 0

  -- `__post_init__`: a weight of zero is not kept.
  abbrev pub is_weight : Text × F → Bool
  is_weight (_, value) = not (r.eq value (r.lit 0 0))

  unfoldable pub embedding : Dict Text F → Embedding F
  embedding given = record { weights = filter is_weight given }

  unfoldable pub empty : Embedding F
  unfolding embedding
  empty = embedding []

  -- `of`: each feature once, with weight 1.0
  unfoldable pub bag_of : List Text → Embedding F
  unfolding embedding
  bag_of features = embedding (map (λ f. (f, r.lit 1 0)) (dedup features))

  abbrev pub has_no_weight : Embedding F → Bool
  has_no_weight e = is_empty e.weights

  unfoldable pub magnitude : Embedding F → F
  magnitude e = r.sqrt (r.sum (map (λ v. r.mul v v) (values e.weights)))

  -- The loop of `plus` over the other vector's weights.
  unfoldable pub accumulate : F → Dict Text F → Dict Text F → Dict Text F
  accumulate scale combined [] = combined
  accumulate scale combined ((name, value) ∷ rest) =
      accumulate scale
        (put name (r.add (get_or (lookup name combined) (r.lit 0 0)) (r.mul value scale)) combined)
        rest

  unfoldable pub plus : Embedding F → Embedding F → F → Embedding F
  unfolding accumulate embedding
  plus self other scale = embedding (accumulate scale self.weights other.weights)

  -- `self.weights[name]`, for a name that is there
  abbrev pub weight : Embedding F → Text → F
  weight e name = get_or (lookup name e.weights) (r.lit 0 0)

  -- `self.weights.keys() & other.weights.keys()`, as the set is walked
  unfoldable pub shared : Embedding F → Embedding F → List Text
  shared self other =
      r.set_order (filter (λ name. contains (keys other.weights) name) (keys self.weights))

  unfoldable pub cosine : Embedding F → Embedding F → F
  unfolding magnitude shared
  cosine self other =
      let left = magnitude self in
      let right = magnitude other in
      let names = shared self other in
      let dot = r.sum (map (λ name. r.mul (weight self name) (weight other name)) names) in
      if r.eq left (r.lit 0 0) || r.eq right (r.lit 0 0)
      then r.lit 0 0
      else if is_empty names
      then r.lit 0 0
      else r.div dot (r.mul left right)

  abbrev pub is_positive : Embedding F → Text → Bool
  is_positive e name = r.lt (r.lit 0 0) (weight e name)

  -- The key `(-weight, name)` of the second name is not below that of the first.
  abbrev pub stronger : Embedding F → Text → Text → Bool
  stronger e a b =
      if r.eq (r.neg (weight e b)) (r.neg (weight e a))
      then text_le a b
      else not (r.lt (r.neg (weight e b)) (r.neg (weight e a)))

  unfoldable pub overlap : Embedding F → Embedding F → List Text
  unfolding shared
  overlap self other =
      sort (stronger self)
        (filter (λ name. is_positive self name && is_positive other name) (shared self other))
