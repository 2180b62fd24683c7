-- ===== src/Serve/Envelope.antt =====
-- What a user is served: the stored list, or else the games that sell best.
use recommendation_service.Base.{
  Bool, leb, ℕ, suc, nat_eq, ◌+◌, ◌≤◌, ◌≡◌, refl, false, ◌⊎◌, inl, inr, none, some, List, [], ◌∷◌,
  arith, All, All-imp, length, map, ap, length-take,
}
use recommendation_service.Base.Dict.{lookup, get_or}
use recommendation_service.Base.Effects.{ok}
use recommendation_service.Base.Sort.{Selects, take-sort-Selects}
use recommendation_service.Catalog.{GameProfile}
use recommendation_service.Preference.{UserPreference, owns, blank}
use recommendation_service.Recommendation.{Recommendation, fallback}
use recommendation_service.Runtime.{Runtime}
use recommendation_service.Scoring.{top_sellers}
use recommendation_service.Scoring.Popular.{top_sellers-eligible}
use recommendation_service.Serve.{
  RecommendationItem, RecommendationsResponse, fallback_items, fallback_top, fallback_response,
  response_of, items_of, item_of, dominant_source, serve,
}
use recommendation_service.Store.{MemoryStore, begin, with_uow, close, rollback}
use recommendation_service.Store.Repositories.{for_user, get_preference}

module _ {F : Type 0} ⦃r : Runtime F⦄ where
  -- Ranks from `k` on, one after another.
  abbrev pub Ranked : ℕ → List (RecommendationItem F) → Type 0
  Ranked k [] = Unit
  Ranked k (i ∷ items) = (i.rank ≡ k) × Ranked (k + 1) items

  -- What is served without a stored list.
  pub record FromSales (p : UserPreference F) (limit : ℕ) (response : RecommendationsResponse F)
      : Type 0 where
    pub source : response.source ≡ fallback
    pub undated : response.generated_at ≡ none
    pub unowned : All (λ i. (owns p i.game_id ≡ false) × (i.source ≡ fallback)) response.items
    pub ranks : Ranked 1 response.items
    pub bounded : length response.items ≤ limit

  -- What is served from a stored list: its items in their order, whole.
  pub record FromStore (first : Recommendation F) (rest : List (Recommendation F))
      (response : RecommendationsResponse F) : Type 0 where
    pub source : response.source ≡ dominant_source (first ∷ rest)
    pub dated : response.generated_at ≡ some first.generated_at
    pub games : map (λ i. i.game_id) response.items ≡ map (λ i. i.game_id) (first ∷ rest)
    pub ranks : map (λ i. i.rank) response.items ≡ map (λ i. i.rank) (first ∷ rest)

  fallback_items-Ranked :
      (top : List (GameProfile F)) (k : ℕ) (games : List (GameProfile F))
      → Ranked k (fallback_items top k games)
  unfolding fallback_items
  fallback_items-Ranked top k [] = tt
  fallback_items-Ranked top k (g ∷ games) = (refl, fallback_items-Ranked top (k + 1) games)

  length-fallback_items :
      (top : List (GameProfile F)) (k : ℕ) (games : List (GameProfile F))
      → length (fallback_items top k games) ≡ length games
  unfolding fallback_items
  length-fallback_items top k [] = refl
  length-fallback_items top k (g ∷ games) = ap suc (length-fallback_items top (k + 1) games)

  fallback_items-unowned :
      (p : UserPreference F) (top : List (GameProfile F)) (k : ℕ) (games : List (GameProfile F))
      → All (λ g. owns p g.game_id ≡ false) games
      → All (λ i. (owns p i.game_id ≡ false) × (i.source ≡ fallback)) (fallback_items top k games)
  unfolding fallback_items
  fallback_items-unowned p top k [] h = tt
  fallback_items-unowned p top k (g ∷ games) h =
      ((h.0, refl), fallback_items-unowned p top (k + 1) games h.1)

  map-map-eq :
      {B : Type 0} (f : Recommendation F → RecommendationItem F) (g : RecommendationItem F → B)
      (h : Recommendation F → B)
      → ((i : Recommendation F) → g (f i) ≡ h i)
      → (l : List (Recommendation F)) → map g (map f l) ≡ map h l
  map-map-eq f g h e [] = refl
  map-map-eq f g h e (i ∷ l) = ground (arith, e i, map-map-eq f g h e l)

  length-top_sellers :
      (games : List (GameProfile F)) (p : UserPreference F) (limit : ℕ)
      → length (top_sellers games p limit) ≤ limit
  unfolding top_sellers
  length-top_sellers games p limit = grind (arith, length-take)

  sold :
      (user_id limit : ℕ) (s : MemoryStore F)
      → FromSales
          (get_or (lookup user_id s.preferences) (blank user_id))
          limit
          (fallback_response user_id limit (begin s))
  unfolding fallback_response fallback_top get_preference lookup
  sold user_id limit s =
      let top = fallback_top user_id limit (begin s) in
      let p = get_or (lookup user_id s.preferences) (blank user_id) in
      record {
        source = refl;
        undated = refl;
        unowned =
            fallback_items-unowned p top 1 top
              (All-imp _ _ top (λ g h. h.2) (top_sellers-eligible _ p limit));
        ranks = fallback_items-Ranked top 1 top;
        bounded = rw (length-fallback_items top 1 top) (length-top_sellers _ p limit);
      }

  response-cases :
      (user_id limit : ℕ) (s : MemoryStore F) (stored : List (Recommendation F))
      → ((stored ≡ [])
          × FromSales
              (get_or (lookup user_id s.preferences) (blank user_id))
              limit
              (response_of user_id limit stored (begin s)))
        ⊎ ((first : Recommendation F) × (rest : List (Recommendation F)) × (stored ≡ first ∷ rest)
            × FromStore first rest (response_of user_id limit stored (begin s)))
  unfolding response_of items_of item_of
  response-cases user_id limit s [] = inl (refl, sold user_id limit s)
  response-cases user_id limit s (first ∷ rest) = inr (
    first,
    rest,
    refl,
    record {
      source = refl;
      dated = refl;
      games = map-map-eq _ (λ i. i.game_id) (λ i. i.game_id) (λ i. refl) (first ∷ rest);
      ranks = map-map-eq _ (λ i. i.rank) (λ i. i.rank) (λ i. refl) (first ∷ rest);
    },
  )

  -- The lower rank first.
  abbrev pub by_rank : Recommendation F → Recommendation F → Bool
  by_rank a b = leb a.rank b.rank

  -- The user's stored list.
  abbrev pub stored_for : ℕ → MemoryStore F → List (Recommendation F)
  stored_for user_id s = get_or (lookup user_id s.recommendations) []

  for_user-Selects :
      (user_id limit : ℕ) (s : MemoryStore F)
      → Selects by_rank limit (for_user user_id limit (begin s)) (stored_for user_id s)
  unfolding for_user lookup
  for_user-Selects user_id limit s =
      take-sort-Selects by_rank (λ a b h. ground arith) (λ a b c h k. ground arith) limit
        (stored_for user_id s)

  -- `serve` never fails and never writes. Of the user's stored list it reads the recommendations of
  -- the lowest ranks in ascending order, `limit` at most, and fewer only where there are no more.
  -- Where it reads none it answers games that the user does not own, `limit` at most, ranked from 1,
  -- as a fallback with no date. Otherwise it answers what it read, every game at its place and rank,
  -- its date that of the first and its source what `_dominant_source` finds.
  pub serve-cases :
      (user_id limit : ℕ) (s : MemoryStore F)
      → (response : RecommendationsResponse F) × (read : List (Recommendation F)) × (serve user_id
            limit s
          ≡ (ok response, s))
        × Selects by_rank limit read (stored_for user_id s)
        × (((read ≡ [])
              × FromSales (get_or (lookup user_id s.preferences) (blank user_id)) limit response)
            ⊎ ((first : Recommendation F) × (rest : List (Recommendation F)) × (read ≡ first ∷ rest)
                × FromStore first rest response))
  unfolding serve with_uow close rollback
  serve-cases user_id limit s = (
    response_of user_id limit (for_user user_id limit (begin s)) (begin s),
    for_user user_id limit (begin s),
    refl,
    for_user-Selects user_id limit s,
    response-cases user_id limit s (for_user user_id limit (begin s)),
  )
