-- ===== src/Adapters/Explainer.antt =====
-- adapters/explanation.py. The exchange with the endpoint and `json.loads` are parameters.
pub mod Reasons
use recommendation_service.Base.{
  ℕ, zero, suc, Bool, true, false, not, ◌&&◌, Option, none, some, List, [], ◌∷◌, ◌++◌, map,
  if◌then◌else◌, ◌==◌, nat_eq,
}
use recommendation_service.Base.Dict.{Dict, put, lookup, or_else}
use recommendation_service.Base.Effects.{Error, Result, ok, err, foreign}
use recommendation_service.Base.Text.{Text, text, text_eq, is_empty, strip, join}
use recommendation_service.Generate.{ExplainedGame, ExplanationRequest, Explanations}
use recommendation_service.Json.{
  Json, Items, Fields, null, string, array, object, nil, item, get, to_list,
}
use recommendation_service.Runtime.{Runtime}

-- NoExplanations
abbrev pub no_explanations : Explanations
no_explanations request = ok []

-- `_describe`
unfoldable pub describe_game : ExplainedGame → Text
unfolding join
describe_game game =
    let labels = join (text ", ") (game.genres ++ game.tags) in
    if is_empty labels then game.title else game.title ++ text " (" ++ labels ++ text ")"

abbrev pub said_or : Text → Text → Text
said_or default s = if is_empty s then default else s

-- `_prompt`; `uuid_text` is `str` of an id
unfoldable pub prompt : (ℕ → Text) → ExplanationRequest → Text
unfolding describe_game join
prompt uuid_text request =
    let played =
      said_or (text "nothing yet") (join (text ", ") (map describe_game request.liked)) in
    let line : ExplainedGame → Text =
      λ game. text "- id=" ++ uuid_text game.game_id ++ text " " ++ describe_game game in
    text "The player already plays: "
    ++ played
    ++ text ".\n\nCandidates:\n"
    ++ join (text "\n") (map line request.candidates)

-- `{str(game.game_id): game.game_id for game in candidates}`
unfoldable pub wanted_from : (ℕ → Text) → Dict Text ℕ → List ExplainedGame → Dict Text ℕ
unfolding put
wanted_from uuid_text d [] = d
wanted_from uuid_text d (game ∷ games) =
    wanted_from uuid_text (put (uuid_text game.game_id) game.game_id d) games

abbrev pub add_reason : Option ℕ → Text → Dict ℕ (List Text) → Dict ℕ (List Text)
add_reason none reason reasons = reasons
add_reason (some game_id) reason reasons =
    if is_empty reason then reasons else put game_id (reason ∷ []) reasons

-- `body.get("reasons") if isinstance(body, dict) else None`
abbrev pub entries_in : {F : Type 0} → Json F → Option (Json F)
unfolding get
entries_in (object body) = get body (text "reasons")
entries_in _ = none

module _ {F : Type 0} ⦃r : Runtime F⦄ where
  -- `str(entry.get(key, ""))`
  abbrev pub str_of : Option (Json F) → Text
  str_of none = []
  str_of (some (string s)) = s
  str_of (some value) = r.repr value

  -- One round of the loop over the entries.
  unfoldable pub read_entry : Dict Text ℕ → Json F → Dict ℕ (List Text) → Dict ℕ (List Text)
  unfolding get lookup put strip
  read_entry wanted (object entry) reasons =
      add_reason (lookup (str_of (get entry (text "id"))) wanted)
        (strip (str_of (get entry (text "reason")))) reasons
  read_entry wanted _ reasons = reasons

  unfoldable pub read_entries :
      Dict Text ℕ → List (Json F) → Dict ℕ (List Text) → Dict ℕ (List Text)
  unfolding read_entry
  read_entries wanted [] reasons = reasons
  read_entries wanted (entry ∷ entries) reasons =
      read_entries wanted entries (read_entry wanted entry reasons)

  abbrev pub read_answer : List ExplainedGame → Option (Json F) → Dict ℕ (List Text)
  unfolding wanted_from read_entries to_list
  read_answer candidates (some (array entries)) =
      read_entries (wanted_from r.uuid_text [] candidates) (to_list entries) []
  read_answer candidates _ = []

  abbrev pub read_loaded : List ExplainedGame → Option (Json F) → Dict ℕ (List Text)
  unfolding entries_in read_answer
  read_loaded candidates none = []
  read_loaded candidates (some body) = read_answer candidates (entries_in body)

  -- `_parse`; `loads` is `json.loads` of a string, and `none` its `ValueError`. Of anything else that
  -- JSON can hold it raises `TypeError`.
  unfoldable pub parse :
      (Text → Option (Json F)) → Json F → List ExplainedGame → Result (Dict ℕ (List Text))
  unfolding read_loaded
  parse loads (string s) candidates = ok (read_loaded candidates (loads s))
  parse loads _ candidates = err foreign

  -- `value[key]` and `value[0]`, where `none` is a `LookupError` or a `TypeError`
  abbrev pub member : Text → Option (Json F) → Option (Json F)
  unfolding get
  member key (some (object fields)) = get fields key
  member key _ = none

  abbrev pub first_of : Option (Json F) → Option (Json F)
  first_of (some (array (item value items))) = some value
  first_of _ = none

  unfoldable pub content_of : Json F → Option (Json F)
  unfolding member
  content_of body =
      member (text "content")
        (member (text "message") (first_of (member (text "choices") (some body))))

-- `_SYSTEM`
unfoldable pub system_prompt : Text
system_prompt =
    text "You explain game recommendations for a digital game store. For each candidate "
    ++ text "game, give one short reason it suits this player, based only on the games they "
    ++ text "already play and the candidate's own genres and tags. Write plainly, at most "
    ++ text "twelve words, no marketing language, no invented facts about the game. Answer "
    ++ text
        "with JSON only: {\"reasons\": [{\"id\": \"<game id>\", \"reason\": \"<text>\"}]}. Omit any "
    ++ text "game you cannot justify from what you were given."

pub record ChatRequest : Type 0 where
  pub url : Text
  pub authorization : Option Text
  pub model : Text
  pub max_tokens : ℕ
  pub system_content : Text
  pub user_content : Text
  pub json_object : Bool

unfoldable pub chat_request :
    (ℕ → Text) → (url api_key model : Text) → ℕ → ExplanationRequest → ChatRequest
unfolding prompt system_prompt
chat_request uuid_text url api_key model max_tokens request = record {
  url = url;
  authorization = if is_empty api_key then none else some (text "Bearer " ++ api_key);
  model = model;
  max_tokens = max_tokens;
  system_content = system_prompt;
  user_content = prompt uuid_text request;
  json_object = true;
}

module _ {F : Type 0} ⦃r : Runtime F⦄ where
  abbrev pub read_content :
      (Text → Option (Json F)) → List ExplainedGame → Option (Json F) → Result (Dict ℕ (List Text))
  unfolding parse
  read_content loads candidates none = ok []
  read_content loads candidates (some content) = parse loads content candidates

  abbrev pub content_in : Option (Json F) → Option (Json F)
  unfolding content_of
  content_in none = none
  content_in (some body) = content_of body

  -- OpenAiCompatibleExplainer.explain. `ask` is the exchange up to `response.json()`; `none` is one
  -- of the exceptions that the method catches. `url` has its `rstrip("/")` and suffix already.
  unfoldable pub explain :
      (ChatRequest → Option (Json F))
      → (Text → Option (Json F))
      → (url api_key model : Text) → (max_tokens : ℕ) → Explanations
  unfolding chat_request content_in read_content
  explain ask loads url api_key model max_tokens request =
      if is_empty request.candidates
      then ok []
      else read_content loads request.candidates
          (content_in (ask (chat_request r.uuid_text url api_key model max_tokens request)))
