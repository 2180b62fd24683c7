-- ===== src/Scoring/Popular.antt =====
-- The fallback ranking: what `TopSellersProvider.rank` selects.
use mathlib.Core.List.{Mem}
use recommendation_service.Base.{
  ℕ, ◌≡◌, Bool, true, false, not, ◌&&◌, List, arith, All, All-imp, All-take, All-both, All-filter,
  All-Mem, filter, filter-All,
}
use recommendation_service.Base.Sort.{sort-perm, All-perm, Selects, take-sort-Selects}
use mathlib.Core.List.Permᴰ
use recommendation_service.Catalog.{GameProfile, is_recommendable}
use recommendation_service.Preference.{UserPreference, owns}
use recommendation_service.Scoring.{more_popular, top_sellers}
use recommendation_service.Scoring.Order.{more_popular_total, more_popular_trans}

module _ {F : Type 0} (games : List (GameProfile F)) (preference : UserPreference F)
    (limit : ℕ) where
  abbrev eligible : GameProfile F → Bool
  eligible game = is_recommendable game && not (owns preference game.game_id)

  -- The fallback returns the `limit` most popular of the eligible games, in order.
  top_sellers-Selects :
      Selects more_popular limit (top_sellers games preference limit) (filter eligible games)
  unfolding top_sellers
  top_sellers-Selects = take-sort-Selects more_popular more_popular_total more_popular_trans limit _

  -- Each game of the fallback is one of the given games, is on sale, and is not owned.
  pub top_sellers-eligible :
      All
        (λ game.
          Mem game games × (game.is_published ≡ true) × (owns preference game.game_id ≡ false))
        (top_sellers games preference limit)
  unfolding top_sellers
  top_sellers-eligible = All-take _ limit _ (
      All-perm _ (Permᴰ.symm (sort-perm more_popular (filter eligible games))) (
        All-imp _ _ (filter eligible games) (λ game h. (h.0, ground arith, ground arith))
          (All-both _ _ (filter eligible games)
            (All-filter (λ g. Mem g games) eligible games (All-Mem games))
            (filter-All eligible games))))
