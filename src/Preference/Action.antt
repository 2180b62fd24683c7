-- ===== src/Preference/Action.antt =====
-- What `observe` makes of one action, told apart from how it computes it.
use recommendation_service.Base.{
  ℕ, ◌-◌, ◌+◌, ◌≤◌, ◌≡◌, ◌↔◌, refl, ◌&&◌, ◌||◌, ◌⊎◌, inl, inr, List, [], ◌∷◌, ◌++◌, some,
  length-take, map, take, take_last, take-append-drop, length, length-take_last, arith, nat_beq,
  Bool-cases, ap, ◌∙◌, subst,
}
use recommendation_service.Base.Dict.{lookup}
use recommendation_service.Base.Effects.{Error, ok, err, invariant_violation, Result-cases}
use recommendation_service.Base.Text.{Text, text_eq}
use recommendation_service.Catalog.{GameProfile}
use recommendation_service.Embedding.Dense.{
  DenseEmbedding, Mismatch, is_blank, dimensions, plus-err, plus-Mismatch, zip_with,
}
use recommendation_service.Embedding.Dense
use recommendation_service.Embedding.Sparse.{Embedding}
use recommendation_service.Embedding.Sparse.Weights.{IsEmbedding, lookup-plus, added, nonzero}
use recommendation_service.Preference.{
  SignalKind, SignalRecord, UserPreference, purchase, review_like, review_dislike, weight_of, owns,
  observe,
}
use recommendation_service.Preference.History.{is_purchase, observe-Observed}
use recommendation_service.Runtime.{Runtime}

module _ {F : Type 0} ⦃r : Runtime F⦄ where
  -- A purchase counts 1.0, a liking 0.5, a disliking -0.3.
  abbrev pub strength : SignalKind → F
  strength purchase = r.lit 1 0
  strength review_like = r.lit 5 1
  strength review_dislike = r.neg (r.lit 3 1)

  weight_of-strength : (kind : SignalKind) → weight_of kind ≡ strength kind
  unfolding weight_of
  weight_of-strength purchase = refl
  weight_of-strength review_like = refl
  weight_of-strength review_dislike = refl

  -- One component after another, `ys` scaled added to `xs`.
  abbrev pub Summed : F → List F → List F → List F → Type 0
  Summed w (x ∷ xs) (y ∷ ys) (z ∷ zs) = (z ≡ r.add x (r.mul y w)) × Summed w xs ys zs
  Summed w [] [] [] = Unit
  Summed w _ _ _ = ⊥

  -- A dense vector moved by another: unchanged by an empty one, replaced by the other scaled where it
  -- is empty, and else summed.
  abbrev pub MovedDense : F → DenseEmbedding F → DenseEmbedding F → DenseEmbedding F → Type 0
  MovedDense w before game after =
      ((game.components ≡ []) × (after ≡ before))
      ⊎ (((before.components ≡ []) × (after.components ≡ map (λ y. r.mul y w) game.components))
          ⊎ Summed w before.components game.components after.components)

  -- What an action leaves of a profile.
  pub record Acted (p : UserPreference F) (game : GameProfile F) (kind : SignalKind) (at : ℕ)
      (q : UserPreference F) : Type 0 where
    pub user : q.user_id ≡ p.user_id
    pub counted : q.signal_count ≡ p.signal_count + 1
    pub stamped : q.updated_at ≡ some at
    pub taste :
        (name : Text)
        → lookup name q.taste.weights
          ≡ nonzero (
              added
                (strength kind)
                (lookup name p.taste.weights)
                (lookup name game.embedding.weights))
    pub dense : MovedDense (strength kind) p.taste_dense game.dense q.taste_dense
    -- the oldest actions, which are no longer remembered
    pub forgotten : List (SignalRecord F)
    pub remembered :
        forgotten ++ q.history
        ≡ p.history ++ record { game_id = game.game_id; weight = strength kind } ∷ []
    pub bounded : length q.history ≤ 200
    pub full : length forgotten ≡ length p.history + 1 - 200
    pub owned : (x : ℕ) → owns q x ≡ (is_purchase kind && nat_beq x game.game_id || owns p x)

  length-snoc :
      (xs : List (SignalRecord F)) (x : SignalRecord F) → length (xs ++ x ∷ []) ≡ length xs + 1
  length-snoc [] x = refl
  length-snoc (y ∷ xs) x = omega (arith, length-snoc xs x)

  zip_with-Summed :
      (w : F) (xs ys : List F)
      → length xs ≡ length ys
      → Summed w xs ys (zip_with (λ a b. r.add a (r.mul b w)) xs ys)
  unfolding zip_with
  zip_with-Summed w [] [] h = tt
  zip_with-Summed w (x ∷ xs) (y ∷ ys) h = (refl, zip_with-Summed w xs ys (omega (arith, h)))
  zip_with-Summed w [] (y ∷ ys) h = absurd (omega (arith, h))
  zip_with-Summed w (x ∷ xs) [] h = absurd (omega (arith, h))

  plus-MovedDense :
      (w : F) (a b s : DenseEmbedding F) → Dense.plus a b w ≡ ok s → MovedDense w a b s
  unfolding Dense.plus
  plus-MovedDense w a b s h = of_components a.components b.components h
    where
      of_components :
          (xs ys : List F)
          → Dense.plus (record { components = xs }) (record { components = ys }) w ≡ ok s
          → MovedDense w (record { components = xs }) (record { components = ys }) s
      of_components xs [] k = inl (refl, cc k)
      of_components [] (y ∷ ys) k =
          let sum : DenseEmbedding F = record { components = map (λ z. r.mul z w) (y ∷ ys) } in
          let same : s ≡ sum = cc k in
          inr (inl (refl, ap (λ (v : DenseEmbedding F). v.components) same))
      of_components (x ∷ xs) (y ∷ ys) k =
          elim (Bool-cases (nat_beq (length (x ∷ xs)) (length (y ∷ ys)))) [
            | inl e ↦
                let sum : DenseEmbedding F = record {
                  components = zip_with (λ m n. r.add m (r.mul n w)) (x ∷ xs) (y ∷ ys);
                } in
                let same : sum ≡ s = cc (rw e at k) in
                inr (
                  inr (
                    subst (λ (v : DenseEmbedding F). Summed w (x ∷ xs) (y ∷ ys) v.components) same
                      (zip_with-Summed w (x ∷ xs) (y ∷ ys) (ground (arith, e)))))
            | inr e ↦ absurd (cc (rw e at k))
          ]

  observe-Acted :
      (p : UserPreference F) (game : GameProfile F) (kind : SignalKind) (at : ℕ)
      (q : UserPreference F)
      → IsEmbedding p.taste
      → IsEmbedding game.embedding
      → observe p game kind at ≡ ok q
      → Acted p game kind at q
  unfolding take_last
  observe-Acted p game kind at q wp wg h =
      let o = observe-Observed p game kind at q h in
      let signal : SignalRecord F = record { game_id = game.game_id; weight = strength kind } in
      let actions = p.history ++ signal ∷ [] in
      let weight = weight_of-strength kind in
      let kept : q.history ≡ take_last 200 actions =
        o.history
        ∙ ap
            (λ (w : F).
              take_last 200 (p.history ++ record { game_id = game.game_id; weight = w } ∷ []))
            weight in
      record {
        user = o.user;
        counted = o.counted;
        stamped = o.stamped;
        taste = λ name.
            ap (λ (e : Embedding F). lookup name e.weights) o.taste
            ∙ lookup-plus p.taste game.embedding (weight_of kind) name wp wg
            ∙ ap
                (λ (w : F).
                  nonzero
                    (added w (lookup name p.taste.weights) (lookup name game.embedding.weights)))
                weight;
        dense =
            subst (λ (w : F). MovedDense w p.taste_dense game.dense q.taste_dense) weight
              (plus-MovedDense (weight_of kind) p.taste_dense game.dense q.taste_dense o.dense);
        forgotten = take (length actions - 200) actions;
        remembered =
            ap (λ (l : List (SignalRecord F)). take (length actions - 200) actions ++ l) kept
            ∙ take-append-drop (length actions - 200) actions;
        bounded = omega (arith, ap length kept, length-take_last 200 actions);
        full =
            omega (arith, length-take (length actions - 200) actions, length-snoc p.history signal);
        owned = o.owned;
      }

  -- `observe` raises exactly where the game's dense vector and the user's are both there and have
  -- different dimensions, and what it raises is an invariant violation.
  pub observe_raises_iff :
      (p : UserPreference F) (game : GameProfile F) (kind : SignalKind) (at : ℕ) (x : Error)
      → (observe p game kind at ≡ err x)
        ↔ ((x ≡ invariant_violation) × Mismatch p.taste_dense game.dense)
  unfolding observe
  observe_raises_iff p game kind at x =
      elim (Result-cases (Dense.plus p.taste_dense game.dense (weight_of kind))) [
        | inl (dense, e) ↦ (
          λ h. absurd (cc (rw e at h)),
          λ m.
              let raised = plus-Mismatch p.taste_dense game.dense (weight_of kind) m.1 in
              absurd (cc (e, raised)),
        )
        | inr (y, e) ↦
            let m = plus-err p.taste_dense game.dense (weight_of kind) y e in
            let raised = plus-Mismatch p.taste_dense game.dense (weight_of kind) m in
            (λ h. (cc (rw raised at h), m), λ k. rw raised (cc (k.0)))
      ]

  -- One action on a profile whose sparse vector is well formed, as is the game's, has one of two
  -- ends. Where both dense vectors are there and their dimensions differ, it raises an invariant
  -- violation. Otherwise the user is the same, the signal is counted and dated; the weight of every
  -- feature and the components of the dense vector move by the game's times 1.0 for a purchase, 0.5
  -- for a liking and -0.3 for a disliking, where an absent weight and an empty vector count as zero and
  -- a weight that comes to zero is dropped; the action ends the history, of which the oldest beyond
  -- 200 are forgotten; and a purchase, but no review, makes the game owned.
  pub observe-cases :
      (p : UserPreference F) (game : GameProfile F) (kind : SignalKind) (at : ℕ)
      → IsEmbedding p.taste
      → IsEmbedding game.embedding
      → (Mismatch p.taste_dense game.dense × (observe p game kind at ≡ err invariant_violation))
        ⊎ ((q : UserPreference F) × (observe p game kind at ≡ ok q) × Acted p game kind at q)
  observe-cases p game kind at wp wg = elim (Result-cases (observe p game kind at)) [
    | inl (q, e) ↦ inr (q, e, observe-Acted p game kind at q wp wg e)
    | inr (x, e) ↦
        let (kind_of, m) = (observe_raises_iff p game kind at x).0 e in inl (m, e ∙ ap err kind_of)
  ]
