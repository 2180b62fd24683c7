-- ===== src/Adapters/Explainer/Reasons.antt =====
-- adapters/explanation.py: where the reasons come from, and what an outage costs.
use mathlib.Core.List.{Mem}
use recommendation_service.Base.{
  ℕ, ◌≡◌, refl, subst, Bool, true, false, Option, none, some, List, [], ◌∷◌, map, arith, All,
  All-imp, All-Mem, nat_eq, contains, Bool-cases, inl, inr,
}
use recommendation_service.Base.Dict.{Dict, put, lookup, Option-cases, All-put, All-lookup}
use recommendation_service.Base.Effects.{Result, ok, err, foreign}
use recommendation_service.Base.Text.{Text, text, text_eq, is_empty, strip}
use recommendation_service.Generate.{ExplainedGame, ExplanationRequest}
use recommendation_service.Json.{
  Json, Fields, null, boolean, integer, decimal, string, array, object, get, to_list,
}
use recommendation_service.Runtime.{Runtime}
use recommendation_service.Adapters.Explainer.{
  str_of, wanted_from, read_entry, read_entries, entries_in, read_answer, read_loaded, parse,
  ChatRequest, read_content, content_in, explain, chat_request,
}

-- The entries of the list under `reasons`, where the content is JSON with such a list.
abbrev pub entries_of : {F : Type 0} → Option (Json F) → List (Json F)
unfolding to_list
entries_of (some (array entries)) = to_list entries
entries_of _ = []

abbrev pub listed_in : {F : Type 0} → Option (Json F) → List (Json F)
unfolding entries_of entries_in
listed_in none = []
listed_in (some body) = entries_of (entries_in body)

abbrev pub candidate_ids : List ExplainedGame → List ℕ
candidate_ids = map (λ g. g.game_id)

-- What the dictionary of the candidates holds.
abbrev Wanted : (ℕ → Text) → List ℕ → Text × ℕ → Type 0
Wanted uuid_text ids w = (w.0 ≡ uuid_text w.1) × (contains ids w.1 ≡ true)

wanted_from-Wanted :
    (uuid_text : ℕ → Text) (ids : List ℕ) (games : List ExplainedGame) (d : Dict Text ℕ)
    → All (λ (g : ExplainedGame). contains ids g.game_id ≡ true) games
    → All (Wanted uuid_text ids) d
    → All (Wanted uuid_text ids) (wanted_from uuid_text d games)
unfolding wanted_from
wanted_from-Wanted uuid_text ids [] d a h = h
wanted_from-Wanted uuid_text ids (game ∷ games) d a h =
    wanted_from-Wanted uuid_text ids games (put (uuid_text game.game_id) game.game_id d) a.1
      (All-put (Wanted uuid_text ids) (uuid_text game.game_id) game.game_id d (refl, a.0) h)

candidates-Wanted :
    (uuid_text : ℕ → Text) (candidates : List ExplainedGame)
    → All (Wanted uuid_text (candidate_ids candidates)) (wanted_from uuid_text [] candidates)
unfolding contains
candidates-Wanted uuid_text candidates =
    wanted_from-Wanted uuid_text (candidate_ids candidates) candidates [] (members candidates) tt
  where
    members :
        (games : List ExplainedGame)
        → All (λ (g : ExplainedGame). contains (candidate_ids games) g.game_id ≡ true) games
    members [] = tt
    members (g ∷ games) =
        (ground arith, All-imp _ _ games (λ h k. ground (arith, k)) (members games))

abbrev pub is_string : {F : Type 0} → Json F → Bool
is_string (string s) = true
is_string _ = false

module _ {F : Type 0} ⦃r : Runtime F⦄ where
  -- A game with its reason: the game was asked about, and an entry that names its id gives the reason.
  pub record Justified (candidates : List ExplainedGame) (entries : List (Json F))
      (given : ℕ × List Text) : Type 0 where
    pub asked : contains (candidate_ids candidates) given.0 ≡ true
    pub entry : Fields F
    pub listed : Mem (object entry) entries
    pub named : str_of (get entry (text "id")) ≡ r.uuid_text given.0
    pub reason : given.1 ≡ strip (str_of (get entry (text "reason"))) ∷ []
    pub said : is_empty (strip (str_of (get entry (text "reason")))) ≡ false

  module _ (candidates : List ExplainedGame) (all : List (Json F)) (wanted : Dict Text ℕ)
      (known : All (Wanted r.uuid_text (candidate_ids candidates)) wanted) where
    read_entry-Justified :
        (value : Json F) (reasons : Dict ℕ (List Text))
        → Mem value all
        → All (Justified candidates all) reasons
        → All (Justified candidates all) (read_entry wanted value reasons)
    unfolding read_entry
    read_entry-Justified (object entry) reasons m h =
        let reason = strip (str_of (get entry (text "reason"))) in
        elim (Option-cases (lookup (str_of (get entry (text "id"))) wanted)) [
          | inl none_named ↦ rw none_named h
          | inr (id, found) ↦ rw found (elim (Bool-cases (is_empty reason)) [
            | inl blank ↦ rw blank h
            | inr said ↦ rw said (
                let w =
                  All-lookup (Wanted r.uuid_text (candidate_ids candidates))
                    (str_of (get entry (text "id"))) id wanted known found in
                All-put (Justified candidates all) id (reason ∷ []) reasons
                  (record {
                    asked = w.1;
                    entry = entry;
                    listed = m;
                    named = w.0;
                    reason = refl;
                    said = said;
                  })
                  h)
          ])
        ]
    read_entry-Justified null reasons m h = h
    read_entry-Justified (boolean b) reasons m h = h
    read_entry-Justified (integer n) reasons m h = h
    read_entry-Justified (decimal x) reasons m h = h
    read_entry-Justified (string s) reasons m h = h
    read_entry-Justified (array items) reasons m h = h

    read_entries-Justified :
        (entries : List (Json F)) (reasons : Dict ℕ (List Text))
        → All (λ value. Mem value all) entries
        → All (Justified candidates all) reasons
        → All (Justified candidates all) (read_entries wanted entries reasons)
    unfolding read_entries
    read_entries-Justified [] reasons m h = h
    read_entries-Justified (value ∷ entries) reasons m h =
        read_entries-Justified entries (read_entry wanted value reasons) m.1
          (read_entry-Justified value reasons m.0 h)

  read_answer-Justified :
      (candidates : List ExplainedGame) (answer : Option (Json F))
      → All (Justified candidates (entries_of answer)) (read_answer candidates answer)
  unfolding entries_of read_answer
  read_answer-Justified candidates (some (array entries)) =
      read_entries-Justified candidates (to_list entries) (wanted_from r.uuid_text [] candidates)
        (candidates-Wanted r.uuid_text candidates) (to_list entries) [] (All-Mem (to_list entries))
        tt
  read_answer-Justified candidates none = tt
  read_answer-Justified candidates (some null) = tt
  read_answer-Justified candidates (some (boolean b)) = tt
  read_answer-Justified candidates (some (integer n)) = tt
  read_answer-Justified candidates (some (decimal x)) = tt
  read_answer-Justified candidates (some (string s)) = tt
  read_answer-Justified candidates (some (object fields)) = tt

  -- The entries that the content of an answer lists.
  abbrev pub heard : (Text → Option (Json F)) → Option (Json F) → List (Json F)
  unfolding listed_in
  heard loads (some (string s)) = listed_in (loads s)
  heard loads _ = []

  read_loaded-Justified :
      (candidates : List ExplainedGame) (body : Option (Json F))
      → All (Justified candidates (listed_in body)) (read_loaded candidates body)
  unfolding listed_in read_loaded
  read_loaded-Justified candidates none = tt
  read_loaded-Justified candidates (some body) = read_answer-Justified candidates (entries_in body)

  read_content-Justified :
      (loads : Text → Option (Json F)) (candidates : List ExplainedGame) (content : Option (Json F))
      (reasons : Dict ℕ (List Text))
      → read_content loads candidates content ≡ ok reasons
      → All (Justified candidates (heard loads content)) reasons
  unfolding read_content parse heard
  read_content-Justified loads candidates none reasons h = subst (All _) {x = []} (cc h) tt
  read_content-Justified loads candidates (some (string s)) reasons h =
      subst (All _) {x = read_loaded candidates (loads s)} (cc h)
        (read_loaded-Justified candidates (loads s))
  read_content-Justified loads candidates (some null) reasons h = absurd (cc h)
  read_content-Justified loads candidates (some (boolean b)) reasons h = absurd (cc h)
  read_content-Justified loads candidates (some (integer n)) reasons h = absurd (cc h)
  read_content-Justified loads candidates (some (decimal x)) reasons h = absurd (cc h)
  read_content-Justified loads candidates (some (array items)) reasons h = absurd (cc h)
  read_content-Justified loads candidates (some (object fields)) reasons h = absurd (cc h)

  -- How an explanation may end, by the content of the answer, which a failed exchange leaves out.
  pub data Ended (loads : Text → Option (Json F)) (content : Option (Json F))
      (out : Result (Dict ℕ (List Text))) : Type 0 where
    no_content : content ≡ none → out ≡ ok [] → Ended loads content out
    no_json :
        (s : Text)
        → content ≡ some (string s)
        → loads s ≡ none
        → out ≡ ok []
        → Ended loads content out
    heard_out :
        (s : Text) (body : Json F) (reasons : Dict ℕ (List Text))
        → content ≡ some (string s)
        → loads s ≡ some body
        → out ≡ ok reasons
        → Ended loads content out
    not_text :
        (value : Json F)
        → content ≡ some value
        → is_string value ≡ false
        → out ≡ err foreign
        → Ended loads content out

  read_content-Ended :
      (loads : Text → Option (Json F)) (candidates : List ExplainedGame) (content : Option (Json F))
      → Ended loads content (read_content loads candidates content)
  unfolding read_content parse read_loaded
  read_content-Ended loads candidates none = no_content refl refl
  read_content-Ended loads candidates (some (string s)) = elim (Option-cases (loads s)) [
    | inl e ↦ no_json s refl e (rw e refl)
    | inr (body, e) ↦ heard_out s body _ refl e refl
  ]
  read_content-Ended loads candidates (some null) = not_text null refl refl refl
  read_content-Ended loads candidates (some (boolean b)) = not_text (boolean b) refl refl refl
  read_content-Ended loads candidates (some (integer n)) = not_text (integer n) refl refl refl
  read_content-Ended loads candidates (some (decimal x)) = not_text (decimal x) refl refl refl
  read_content-Ended loads candidates (some (array l)) = not_text (array l) refl refl refl
  read_content-Ended loads candidates (some (object o)) = not_text (object o) refl refl refl

  module _ (ask : ChatRequest → Option (Json F)) (loads : Text → Option (Json F))
      (url api_key model : Text) (max_tokens : ℕ) (request : ExplanationRequest) where
    -- The content of what the endpoint answers.
    abbrev pub told : Option (Json F)
    unfolding content_in chat_request
    told = content_in (ask (chat_request r.uuid_text url api_key model max_tokens request))

    -- Each reason that is given was asked for: its game is a candidate, and an entry of the answer names
    -- the id of this game and gives the reason, which is not blank.
    pub explain-Justified :
        (reasons : Dict ℕ (List Text))
        → explain ask loads url api_key model max_tokens request ≡ ok reasons
        → All (Justified request.candidates (heard loads told)) reasons
    unfolding explain told
    explain-Justified reasons h = elim (Bool-cases (is_empty request.candidates)) [
      | inl e ↦ subst (All _) {x = []} (ground arith) tt
      | inr e ↦ read_content-Justified loads request.candidates told reasons (ground arith)
    ]

    -- With candidates to explain, the explainer ends in one of three ways. Where the exchange
    -- failed, or the answer has no content, or the content is text that is not JSON, it returns no
    -- reasons. Where the content is text that is JSON, it returns too. Where there is a content that
    -- is not text, it raises.
    pub explain-cases :
        is_empty request.candidates ≡ false
        → Ended loads told (explain ask loads url api_key model max_tokens request)
    unfolding explain told
    explain-cases e = rw e (read_content-Ended loads request.candidates told)
