-- ===== src/Preference/Rebuild.antt =====
-- A dense taste vector that is rebuilt from the history is the one that would have been folded on
-- ingest, had every embedding been there in time.
use recommendation_service.Base.{
  ℕ, ◌+◌, ◌≤◌, ◌≡◌, refl, Option, none, some, List, [], ◌∷◌, ◌++◌, map, arith, nat_eq, length,
  take_last_short, length-append, ◌∙◌, ap, sym, subst,
}
use recommendation_service.Base.Dict.{Dict, lookup, get_or}
use recommendation_service.Base.Effects.{Result, ok, and_then, and_then-eq_ok, and_then-ok}
use recommendation_service.Catalog.{GameProfile}
use recommendation_service.Embedding.Dense.{DenseEmbedding, is_blank}
use recommendation_service.Embedding.Dense
use recommendation_service.Limits.{max_signal_history}
use recommendation_service.Preference.{
  SignalKind, SignalRecord, UserPreference, weight_of, observe, blank, rebuild, rebuilt_in, usable,
  add_usable,
}
use recommendation_service.Preference.History.{observe-Observed}
use recommendation_service.Runtime.{Runtime}

-- One action on one version of a game's profile.
pub record Action (F : Type 0) : Type 0 where
  pub game : GameProfile F
  pub kind : SignalKind
  pub at : ℕ

-- The same action, had the game's vector been the one of `space`.
abbrev pub in_space : {F : Type 0} → Dict ℕ (DenseEmbedding F) → Action F → Action F
in_space space a = record a {
  game = record a.game { dense = get_or (lookup a.game.game_id space) Dense.empty };
}

module _ {F : Type 0} ⦃r : Runtime F⦄ where
  unfoldable pub observe_all : UserPreference F → List (Action F) → Result (UserPreference F)
  observe_all p [] = ok p
  observe_all p (a ∷ actions) = and_then (observe p a.game a.kind a.at) λ q. observe_all q actions

  abbrev signal_of : Action F → SignalRecord F
  signal_of a = record { game_id = a.game.game_id; weight = weight_of a.kind }

  rebuild-append :
      (space : Dict ℕ (DenseEmbedding F)) (history : List (SignalRecord F)) (v w : DenseEmbedding F)
      (s : SignalRecord F)
      → rebuild space v history ≡ ok w
      → rebuild space v (history ++ s ∷ [])
        ≡ add_usable w s.weight (usable (lookup s.game_id space))
  unfolding rebuild
  rebuild-append space [] v w s h =
      and_then-ok (add_usable v s.weight (usable (lookup s.game_id space)))
      ∙ ap (λ u. add_usable u s.weight (usable (lookup s.game_id space))) (ground arith)
  rebuild-append space (t ∷ history) v w s h =
      let (n, e, rest) =
        and_then-eq_ok (add_usable v t.weight (usable (lookup t.game_id space))) _ h in
      rw e (rebuild-append space history n w s rest)

  -- A vector that is missing or empty adds nothing.
  usable-plus :
      (v : DenseEmbedding F) (weight : F) (found : Option (DenseEmbedding F))
      → add_usable v weight (usable found) ≡ Dense.plus v (get_or found Dense.empty) weight
  unfolding Dense.plus
  usable-plus v weight none = refl
  usable-plus v weight (some u) = ground arith

  -- What holds of a profile whose dense vector was folded with the vectors of `space`.
  abbrev Folded : Dict ℕ (DenseEmbedding F) → UserPreference F → Type 0
  Folded space p = rebuild space Dense.empty p.history ≡ ok p.taste_dense

  observe-Folded :
      (space : Dict ℕ (DenseEmbedding F)) (p q : UserPreference F) (a : Action F)
      → length p.history + 1 ≤ max_signal_history
      → Folded space p
      → observe p (in_space space a).game a.kind a.at ≡ ok q
      → (q.history ≡ p.history ++ signal_of a ∷ []) × Folded space q
  observe-Folded space p q a room folded h =
      let o = observe-Observed p (in_space space a).game a.kind a.at q h in
      let s = signal_of a in
      let whole =
        o.history
        ∙ take_last_short max_signal_history (p.history ++ s ∷ [])
            (omega (arith, length-append p.history (s ∷ []))) in
      (
        whole,
        ap (rebuild space Dense.empty) whole
            ∙ rebuild-append space p.history Dense.empty p.taste_dense s folded
            ∙ usable-plus p.taste_dense s.weight (lookup s.game_id space)
            ∙ o.dense,
      )

  observe-history :
      (p q : UserPreference F) (a : Action F)
      → length p.history + 1 ≤ max_signal_history
      → observe p a.game a.kind a.at ≡ ok q
      → q.history ≡ p.history ++ signal_of a ∷ []
  observe-history p q a room h =
      (observe-Observed p a.game a.kind a.at q h).history
      ∙ take_last_short max_signal_history _
          (omega (arith, length-append p.history (signal_of a ∷ [])))

  observe_all-Folded :
      (space : Dict ℕ (DenseEmbedding F)) (actions : List (Action F)) (p p' q q' : UserPreference F)
      → length p.history + length actions ≤ max_signal_history
      → p.history ≡ p'.history
      → Folded space p'
      → observe_all p actions ≡ ok q
      → observe_all p' (map (in_space space) actions) ≡ ok q'
      → (q.history ≡ q'.history) × Folded space q'
  unfolding observe_all
  observe_all-Folded space [] p p' q q' room same folded h h' =
      let e : p' ≡ q' = ground arith in (cc, subst (Folded space) e folded)
  observe_all-Folded space (a ∷ actions) p p' q q' room same folded h h' =
      let (m, e, rest) = and_then-eq_ok (observe p a.game a.kind a.at) _ h in
      let (m', e', rest') = and_then-eq_ok (observe p' (in_space space a).game a.kind a.at) _ h' in
      let long = observe-history p m a (omega arith) e in
      let step = observe-Folded space p' m' a (omega (arith, ap length same)) folded e' in
      observe_all-Folded space actions m m' q q'
        (omega (arith, ap length long, length-append p.history (signal_of a ∷ [])))
        (long ∙ ap (λ l. l ++ signal_of a ∷ []) same ∙ sym step.0) step.1 rest rest'

  -- A user's actions, at most as many as the history holds, were observed while some games had no
  -- vector, or another one. `rebuilt_in` then gives the dense taste that the same actions would
  -- have left had each game carried its vector of `space` at the time, and changes nothing else.
  pub rebuilt_in-observe_all :
      (space : Dict ℕ (DenseEmbedding F)) (user : ℕ) (actions : List (Action F))
      (q ideal : UserPreference F)
      → length actions ≤ max_signal_history
      → observe_all (blank user) actions ≡ ok q
      → observe_all (blank user) (map (in_space space) actions) ≡ ok ideal
      → rebuilt_in q space ≡ ok (record q { taste_dense = ideal.taste_dense })
  unfolding rebuilt_in
  rebuilt_in-observe_all space user actions q ideal room h h' =
      let (same, folded) =
        observe_all-Folded space actions (blank user) (blank user) q ideal
          (unfold blank in omega arith) refl (unfold blank rebuild in refl) h h' in
      rw (ap (rebuild space Dense.empty) same ∙ folded)
