-- ===== src/Embedding/Dense.antt =====
-- `DenseEmbedding` of domain/policy/embedding.py: a vector over an anonymous space.
use recommendation_service.Base.{
  ℕ, ◌≡◌, ◌≢◌, ◌↔◌, refl, Bool, false, not, ◌||◌, List, [], ◌∷◌, map, arith, nat_beq, if◌then◌else◌,
  length,
}
use recommendation_service.Base.Effects.{Error, Result, ok, err, invariant_violation}
use recommendation_service.Base.Text.{is_empty}
use recommendation_service.Runtime.{Runtime}

pub record DenseEmbedding (F : Type 0) : Type 0 where
  pub components : List F

abbrev pub dimensions : {F : Type 0} → DenseEmbedding F → ℕ
dimensions v = length v.components

abbrev pub empty : {F : Type 0} → DenseEmbedding F
empty = record { components = [] }

abbrev pub is_blank : {F : Type 0} → DenseEmbedding F → Bool
is_blank v = is_empty v.components

-- `f(a, b) for a, b in zip(xs, ys, strict=True)`, for lists of one length
unfoldable pub zip_with : {F : Type 0} → (F → F → F) → List F → List F → List F
zip_with f (a ∷ xs) (b ∷ ys) = f a b ∷ zip_with f xs ys
zip_with f _ _ = []

module _ {F : Type 0} ⦃r : Runtime F⦄ where
  unfoldable pub magnitude : DenseEmbedding F → F
  magnitude v = r.sqrt (r.sum (map (λ x. r.mul x x) v.components))

  unfoldable pub plus : DenseEmbedding F → DenseEmbedding F → F → Result (DenseEmbedding F)
  plus self other scale =
      if is_blank other
      then ok self
      else if is_blank self
      then ok (record { components = map (λ x. r.mul x scale) other.components })
      else if not (nat_beq (dimensions self) (dimensions other))
      then err invariant_violation
      else ok (record {
        components = zip_with (λ a b. r.add a (r.mul b scale)) self.components other.components;
      })

  unfoldable pub cosine : DenseEmbedding F → DenseEmbedding F → F
  unfolding magnitude
  cosine self other =
      let left = magnitude self in
      let right = magnitude other in
      let dot = r.sum (zip_with r.mul self.components other.components) in
      if is_blank self || is_blank other || not (nat_beq (dimensions self) (dimensions other))
      then r.lit 0 0
      else if r.eq left (r.lit 0 0) || r.eq right (r.lit 0 0)
      then r.lit 0 0
      else r.div dot (r.mul left right)

  length-zip_with :
      (f : F → F → F) (xs ys : List F)
      → length xs ≡ length ys
      → length (zip_with f xs ys) ≡ length xs
  unfolding zip_with
  length-zip_with f [] ys h = refl
  length-zip_with f (a ∷ xs) [] h = absurd (omega arith)
  length-zip_with f (a ∷ xs) (b ∷ ys) h = omega (arith, length-zip_with f xs ys)

  length-map : (f : F → F) (xs : List F) → length (map f xs) ≡ length xs
  length-map f [] = refl
  length-map f (x ∷ xs) = omega (arith, length-map f xs)

  -- Two widths meet: both vectors are there, and their dimensions differ.
  abbrev pub Mismatch : DenseEmbedding F → DenseEmbedding F → Type 0
  Mismatch a b = (is_blank a ≡ false) × (is_blank b ≡ false) × (dimensions a ≢ dimensions b)

  pub plus-err :
      (a b : DenseEmbedding F) (scale : F) (e : Error) → plus a b scale ≡ err e → Mismatch a b
  unfolding plus
  plus-err a b scale e h = ground arith

  pub plus-Mismatch :
      (a b : DenseEmbedding F) (scale : F) → Mismatch a b → plus a b scale ≡ err invariant_violation
  unfolding plus
  plus-Mismatch a b scale h = ground arith

  -- `plus` raises exactly where two vectors of different dimensions meet.
  pub plus_raises_iff :
      (a b : DenseEmbedding F) (scale : F)
      → (plus a b scale ≡ err invariant_violation) ↔ Mismatch a b
  plus_raises_iff a b scale = (plus-err a b scale invariant_violation, plus-Mismatch a b scale)

  -- The dimensions of a sum: those of the vector that is there.
  pub dimensions-plus :
      (a b : DenseEmbedding F) (scale : F) (s : DenseEmbedding F)
      → plus a b scale ≡ ok s
      → dimensions s ≡ (if is_blank b then dimensions a else dimensions b)
  unfolding plus
  dimensions-plus a b scale s h = ground (
    arith,
    length-map (λ (x : F). r.mul x scale) b.components,
    length-zip_with (λ (x y : F). r.add x (r.mul y scale)) a.components b.components,
  )
