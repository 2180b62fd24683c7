-- ===== src/Tests/Entry.antt =====
-- The theorems about the HTTP side at concrete inputs.
use mathlib.Core.List.{Mem}
use recommendation_service.Base.{
  ◌⊎◌, ◌≤◌, ℕ, ◌≡◌, ◌≢◌, refl, true, false, none, some, [], ◌∷◌, nat_eq, filter, contains,
}
use recommendation_service.Base.Dict.{Dict}
use recommendation_service.Base.Effects.{
  authentication, Result, ok, err, authorization, connection_lost,
}
use recommendation_service.Base.Text.{Text, text}
use recommendation_service.Access.{Actor, basic_user}
use recommendation_service.Generate.{GenerateConfig, Stamps}
use recommendation_service.Http.Cache.{Codec, Weather, get_or_set}
use recommendation_service.Http.Cache.Owners.{Writes, Reached, start, asked, served_own, fails_open}
use recommendation_service.Serve.{serve}
use recommendation_service.Generate.{refresh_all, refresh_one}
use recommendation_service.Limits.{default_recommendation_count}
use recommendation_service.Http.Problem.{
  Raised, thrown, reworded, Promised, Told, response_to, response_to-Told,
}
use recommendation_service.Http.Routes.{
  Asked, own_list, similar_rail, key_of, recommendations_for, refresh_route, refresh_user_route,
}
use recommendation_service.Http.Routes.Guards.{IsStaff, IsPublic, guards-cases}
use recommendation_service.Scoring.{content_based_scorer}
use recommendation_service.Tests.Values.{numbers, shop}

abbrev as_is : Codec Text
as_is = record { dumps = λ s. s; loads = λ s. ok s }

abbrev one_code : ℕ → Text
one_code n = n ∷ []

one_code-Writes : Writes one_code one_code
one_code-Writes = record {
  one_length = λ i j. refl;
  ids_differ = λ i j h. cc h;
  numbers_differ = λ i j h. cc h;
}

abbrev clear_sky : Weather
clear_sky = record { expired = []; read_fails = false; write_fails = false }

abbrev one_entry : Dict Text Text
one_entry =
    (get_or_set as_is (text "svc") (key_of one_code one_code (own_list 7 10)) (ok (text "for 7"))
      clear_sky []).1

first_asked :
    Reached as_is one_code one_code (text "svc") ((own_list 7 10, text "for 7") ∷ []) one_entry
first_asked = asked start (own_list 7 10) (ok (text "for 7")) clear_sky

hit :
    (get_or_set as_is
      (text "svc")
      (key_of one_code one_code (own_list 7 10))
      (ok (text "new"))
      clear_sky
      one_entry).0
    ≡ ok (text "for 7")
unfolding get_or_set key_of filter contains
hit = refl

served_own_example :
    Mem {A = Asked × Text}
      (own_list 7 10, text "for 7")
      ((own_list 7 10, text "new") ∷ (own_list 7 10, text "for 7") ∷ [])
served_own_example =
    served_own one_code one_code one_code-Writes as_is (λ p. refl) (text "svc") first_asked
      (own_list 7 10) (ok (text "new")) clear_sky (text "for 7") hit

-- The rail of another game, whose computation fails while the client is away.
abbrev away : Weather
away = record { expired = []; read_fails = true; write_fails = true }

raised :
    (get_or_set as_is
      (text "svc")
      (key_of one_code one_code (similar_rail 7 10))
      (err connection_lost)
      away
      one_entry).0
    ≡ err connection_lost
unfolding get_or_set key_of
raised = refl

abbrev failure : Result Text
failure = err connection_lost

fails_open_example : failure ≡ err connection_lost
fails_open_example =
    fails_open one_code one_code one_code-Writes as_is (λ p. refl) (text "svc") first_asked
      (similar_rail 7 10) (err connection_lost) away connection_lost raised

abbrev visitor : Actor
visitor = record { user_id = 9; role = basic_user; is_banned = false }

abbrev config : GenerateConfig ℕ
config = record {
  scorer = content_based_scorer;
  catalogue_limit = 500;
  explanations = none;
  dense_space = false;
  topic = text "reco-events";
  correlation_id = none;
}

abbrev stamps : ℕ → Stamps
stamps user_id = record { now = 50; new_uuid = λ n. n; event_id = 60; emitted_at = 50 }

guards-cases_example :
    ((((7 ≡ visitor.user_id) ⊎ IsStaff visitor.role)
        × (recommendations_for 7 visitor 10 shop ≡ serve 7 10 shop))
      ⊎ ((7 ≢ visitor.user_id)
          × IsPublic visitor.role
          × (recommendations_for 7 visitor 10 shop ≡ (err authorization, shop))))
    × ((IsStaff visitor.role
          × (refresh_route config stamps 500 10 50 none visitor shop
              ≡ refresh_all config stamps 500 10 50 none shop)
          × (refresh_user_route config stamps 7 50 none visitor shop
              ≡ refresh_one config stamps 7 default_recommendation_count 50 none shop))
        ⊎ (IsPublic visitor.role
            × (refresh_route config stamps 500 10 50 none visitor shop ≡ (err authorization, shop))
            × (refresh_user_route config stamps 7 50 none visitor shop
                ≡ (err authorization, shop))))
guards-cases_example = guards-cases visitor config stamps 500 10 50 7 none shop

abbrev expired : Raised
expired = thrown authentication (text "Token has expired.")

response_to-Told_example :
    (status : ℕ) × Promised expired status
    × Told {F = ℕ} (some (text "c-1")) status (response_to {F = ℕ} (some (text "c-1")) expired)
    × ((response_to {F = ℕ} (some (text "c-1")) expired
          ≡ response_to (some (text "c-1")) (reworded expired []))
        ⊎ (status ≤ 499))
response_to-Told_example = response_to-Told (some (text "c-1")) expired []
