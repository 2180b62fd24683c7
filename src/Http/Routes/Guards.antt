-- ===== src/Http/Routes/Guards.antt =====
-- What the guards of the routes let through.
use recommendation_service.Base.{
  ℕ, ◌≡◌, ◌≢◌, refl, true, false, ◌⊎◌, inl, inr, Option, nat_beq, nat_eq, arith, Bool-cases,
}
use recommendation_service.Base.Effects.{err, authorization, Exec}
use recommendation_service.Access.{Role, basic_user, developer, support, admin, Actor, is_moderator}
use recommendation_service.Generate.{GenerateConfig, Stamps, refresh_all, refresh_one}
use recommendation_service.Http.Routes.{recommendations_for, refresh_route, refresh_user_route}
use recommendation_service.Limits.{default_recommendation_count}
use recommendation_service.Runtime.{Runtime}
use recommendation_service.Serve.{serve}
use recommendation_service.Store.{MemoryStore}

-- The roles of those who run the platform, and those of everybody else.
abbrev pub IsStaff : Role → Type 0
IsStaff role = (role ≡ support) ⊎ (role ≡ admin)

abbrev pub IsPublic : Role → Type 0
IsPublic role = (role ≡ basic_user) ⊎ (role ≡ developer)

is_moderator-cases :
    (actor : Actor)
    → (IsStaff actor.role × (is_moderator actor ≡ true))
      ⊎ (IsPublic actor.role × (is_moderator actor ≡ false))
is_moderator-cases actor = of_role actor.role
  where
    of_role :
        (role : Role)
        → (IsStaff role × ((elim role [ support ↦ true | admin ↦ true | _ ↦ false ]) ≡ true))
          ⊎ (IsPublic role × ((elim role [ support ↦ true | admin ↦ true | _ ↦ false ]) ≡ false))
    of_role basic_user = inr (inl refl, refl)
    of_role developer = inr (inr refl, refl)
    of_role support = inl (inl refl, refl)
    of_role admin = inl (inr refl, refl)

module _ {F : Type 0} ⦃r : Runtime F⦄ where
  -- The list of a user is served to that user and to staff, that is to Support and to admins, and
  -- refused to everybody else; the sweep and the refresh of a user run for staff and are refused to
  -- ordinary users and developers. What is refused leaves the store as it was.
  pub guards-cases :
      (actor : Actor) (config : GenerateConfig F) (stamps : ℕ → Stamps)
      (batch_size limit finished_at user_id : ℕ) (embedding : Option (Exec (MemoryStore F) ℕ))
      (s : MemoryStore F)
      → ((((user_id ≡ actor.user_id) ⊎ IsStaff actor.role)
            × (recommendations_for user_id actor limit s ≡ serve user_id limit s))
          ⊎ ((user_id ≢ actor.user_id)
              × IsPublic actor.role
              × (recommendations_for user_id actor limit s ≡ (err authorization, s))))
        × ((IsStaff actor.role
              × (refresh_route config stamps batch_size limit finished_at embedding actor s
                  ≡ refresh_all config stamps batch_size limit finished_at embedding s)
              × (refresh_user_route config stamps user_id finished_at embedding actor s
                  ≡ refresh_one config stamps user_id default_recommendation_count finished_at
                      embedding s))
            ⊎ (IsPublic actor.role
                × (refresh_route config stamps batch_size limit finished_at embedding actor s
                    ≡ (err authorization, s))
                × (refresh_user_route config stamps user_id finished_at embedding actor s
                    ≡ (err authorization, s))))
  unfolding recommendations_for refresh_route refresh_user_route
  guards-cases actor config stamps batch_size limit finished_at user_id embedding s = (
    own (is_moderator-cases actor),
    elim (is_moderator-cases actor) [
      | inl (staff, h) ↦ inl (staff, rw h refl, rw h refl)
      | inr (public, h) ↦ inr (public, rw h refl, rw h refl)
    ],
  )
    where
      own :
          (IsStaff actor.role × (is_moderator actor ≡ true))
            ⊎ (IsPublic actor.role × (is_moderator actor ≡ false))
          → (((user_id ≡ actor.user_id) ⊎ IsStaff actor.role)
              × (recommendations_for user_id actor limit s ≡ serve user_id limit s))
            ⊎ ((user_id ≢ actor.user_id)
                × IsPublic actor.role
                × (recommendations_for user_id actor limit s ≡ (err authorization, s)))
      own (inl (staff, h)) = inl (inr staff, ground (arith, h))
      own (inr (public, h)) = elim (Bool-cases (nat_beq user_id actor.user_id)) [
        | inl same ↦ inl (inl (ground (arith, same)), rw same refl)
        | inr other ↦ inr ((λ e. ground (arith, other, e)), public, rw (other, h) refl)
      ]
