-- ===== src/Embedding/Sparse/Weights.antt =====
-- The weights of a sum of sparse vectors, and that a vector never holds a weight of zero.
use recommendation_service.Base.{
  ◌≡◌, refl, Bool, true, false, Option, none, some, List, [], ◌∷◌, map, arith, if◌then◌else◌, All,
  filter, filter-All, contains, Distinct, dedup, dedup-Distinct,
}
use recommendation_service.Base.Dict.{
  Dict, keys, lookup, put, get_or, IsDict, put-IsDict, lookup-put, is_some-lookup,
}
use recommendation_service.Base.Text.{Text, text_eq}
use recommendation_service.Embedding.Sparse.{
  Embedding, embedding, is_weight, accumulate, plus, bag_of, empty,
}
use recommendation_service.Runtime.{Runtime}

module _ {F : Type 0} where
  -- What a filter of the entries leaves at a name.
  kept : (Text × F → Bool) → Text → Option F → Option F
  kept p name none = none
  kept p name (some v) = if p (name, v) then some v else none

  keys-filter :
      (p : Text × F → Bool) (d : Dict Text F) (name : Text)
      → contains (keys d) name ≡ false
      → contains (keys (filter p d)) name ≡ false
  unfolding filter contains
  keys-filter p [] name h = refl
  keys-filter p ((k, v) ∷ d) name h = ground (arith, keys-filter p d name)

  lookup_absent :
      (d : Dict Text F) (name : Text) → contains (keys d) name ≡ false → lookup name d ≡ none
  lookup_absent d name h = ground (arith, is_some-lookup name d)

  filter-IsDict : (p : Text × F → Bool) (d : Dict Text F) → IsDict d → IsDict (filter p d)
  unfolding filter
  filter-IsDict p [] h = tt
  filter-IsDict p ((k, v) ∷ d) h = ground (arith, filter-IsDict p d, keys-filter p d k)

  lookup-filter :
      (p : Text × F → Bool) (d : Dict Text F) (name : Text)
      → IsDict d
      → lookup name (filter p d) ≡ kept p name (lookup name d)
  unfolding filter lookup kept
  lookup-filter p [] name h = refl
  lookup-filter p ((k, v) ∷ d) name h = ground (
    arith,
    lookup-filter p d name,
    text_eq.beq_iff k name,
    lookup_absent d k,
    lookup_absent (filter p d) k,
    keys-filter p d k,
  )

module _ {F : Type 0} ⦃r : Runtime F⦄ where
  -- The names are a dictionary's, and no weight is zero.
  pub record IsEmbedding (e : Embedding F) : Type 0 where
    pub names : IsDict e.weights
    pub weights : All (λ w. is_weight w ≡ true) e.weights

  pub embedding-IsEmbedding : (given : Dict Text F) → IsDict given → IsEmbedding (embedding given)
  unfolding embedding
  embedding-IsEmbedding given h = record {
    names = filter-IsDict is_weight given h;
    weights = filter-All is_weight given;
  }

  -- What the accumulated dictionary holds at a name.
  abbrev pub added : F → Option F → Option F → Option F
  added scale mine none = mine
  added scale mine (some v) = some (r.add (get_or mine (r.lit 0 0)) (r.mul v scale))

  accumulate-IsDict :
      (scale : F) (combined other : Dict Text F)
      → IsDict combined
      → IsDict (accumulate scale combined other)
  unfolding accumulate
  accumulate-IsDict scale combined [] h = h
  accumulate-IsDict scale combined ((name, v) ∷ other) h =
      let new = r.add (get_or (lookup name combined) (r.lit 0 0)) (r.mul v scale) in
      accumulate-IsDict scale (put name new combined) other (put-IsDict name new combined h)

  lookup-accumulate :
      (scale : F) (combined other : Dict Text F) (name : Text)
      → IsDict other
      → lookup name (accumulate scale combined other)
        ≡ added scale (lookup name combined) (lookup name other)
  unfolding accumulate lookup
  lookup-accumulate scale combined [] name h = refl
  lookup-accumulate scale combined ((k, v) ∷ other) name h =
      let new = r.add (get_or (lookup k combined) (r.lit 0 0)) (r.mul v scale) in
      ground (
        arith,
        lookup-accumulate scale (put k new combined) other name h.1,
        lookup-put name k new combined,
        lookup_absent other k,
        text_eq.beq_iff k name,
      )

  abbrev pub nonzero : Option F → Option F
  nonzero none = none
  nonzero (some v) = if r.eq v (r.lit 0 0) then none else some v

  -- The weight of a name in a sum of well-formed vectors: the two weights, the second scaled, an
  -- absent one counting as zero; a name that the second vector lacks keeps its weight, and a sum of
  -- zero is dropped.
  pub lookup-plus :
      (a b : Embedding F) (scale : F) (name : Text)
      → IsEmbedding a
      → IsEmbedding b
      → lookup name (plus a b scale).weights
        ≡ nonzero (added scale (lookup name a.weights) (lookup name b.weights))
  unfolding plus kept
  lookup-plus a b scale name wa wb = ground (
    arith,
    lookup-filter is_weight (accumulate scale a.weights b.weights) name
        (accumulate-IsDict scale a.weights b.weights wa.names),
    lookup-accumulate scale a.weights b.weights name wb.names,
  )

  -- A sum of well-formed vectors is well formed: each name once, and no weight of zero.
  pub plus-IsEmbedding :
      (a b : Embedding F) (scale : F) → IsEmbedding a → IsEmbedding (plus a b scale)
  unfolding plus
  plus-IsEmbedding a b scale wa =
      embedding-IsEmbedding _ (accumulate-IsDict scale a.weights b.weights wa.names)

  keys-ones :
      (fs : List Text) (n : Text) (v : F) → contains (keys (map (λ f. (f, v)) fs)) n ≡ contains fs n
  unfolding contains
  keys-ones [] n v = refl
  keys-ones (f ∷ fs) n v = ground (arith, keys-ones fs n v)

  ones-IsDict : (fs : List Text) (v : F) → Distinct fs → IsDict (map (λ f. (f, v)) fs)
  ones-IsDict [] v h = tt
  ones-IsDict (f ∷ fs) v h = ground (arith, keys-ones fs f v, ones-IsDict fs v)

  pub bag_of-IsEmbedding : (features : List Text) → IsEmbedding (bag_of features)
  unfolding bag_of
  bag_of-IsEmbedding features =
      embedding-IsEmbedding _ (ones-IsDict (dedup features) (r.lit 1 0) (dedup-Distinct features))

  pub empty-IsEmbedding : IsEmbedding empty
  unfolding empty
  empty-IsEmbedding = embedding-IsEmbedding [] tt
