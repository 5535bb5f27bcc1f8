-- ===== src/Transport/Logging.antt =====
-- internal/transport/middleware/logging.go: what is kept out of the log.
--
-- `json.Unmarshal` and `json.Marshal` are parameters. The values of a decoded object are in any order.
pub mod Filtered
use expense_management.Prelude.{
  ℕ, String, List, [], ◌∷◌, Option, none, some, Bool, true, false, ◌&&◌, ◌||◌, ◌==◌, leb, ltb,
  if◌then◌else◌, ◌<>◌, str_eq, to_lower, codes,
}

-- `interface{}` as `json.Unmarshal` fills it; a number is kept as its text.
mutual
  pub data Json : Type 0 where
    json_null : Json
    json_bool : Bool → Json
    json_number : String → Json
    json_string : String → Json
    json_array : Items → Json
    json_object : Fields → Json

  pub data Items : Type 0 where
    no_items : Items
    item : Json → Items → Items

  pub data Fields : Type 0 where
    no_fields : Fields
    field : String → Json → Fields → Fields

abbrev pub sensitive_fields : List String
sensitive_fields =
    "password" ∷ "password_hash" ∷ "passwordhash" ∷ "token" ∷ "access_token" ∷ "refresh_token"
    ∷ "authorization" ∷ "secret" ∷ "key" ∷ "api_key" ∷ "session" ∷ "credential" ∷ "auth" ∷ []

abbrev begins_with : List ℕ → List ℕ → Bool
begins_with cs [] = true
begins_with [] (d ∷ ds) = false
begins_with (c ∷ cs) (d ∷ ds) = c == d && begins_with cs ds

-- `strings.Contains`, on code points.
abbrev has_codes : List ℕ → List ℕ → Bool
has_codes [] ds = begins_with [] ds
has_codes (c ∷ cs) ds = begins_with (c ∷ cs) ds || has_codes cs ds

-- The loop over the sensitive fields, on a text in lower case.
has_any_of : List ℕ → List String → Bool
has_any_of lower_name [] = false
has_any_of lower_name (f ∷ fs) =
    if has_codes lower_name (codes f) then true else has_any_of lower_name fs

unfoldable pub is_sensitive : String → Bool
unfolding has_any_of
is_sensitive name = has_any_of (to_lower name) sensitive_fields

abbrev pub filtered_text : String
filtered_text = "[FILTERED]"

unfoldable mutual
  pub filter_sensitive_json : Json → Json
  filter_sensitive_json (json_object fields) = json_object (filter_fields fields)
  filter_sensitive_json (json_array items) = json_array (filter_items items)
  filter_sensitive_json json_null = json_null
  filter_sensitive_json (json_bool b) = json_bool b
  filter_sensitive_json (json_number n) = json_number n
  filter_sensitive_json (json_string s) = json_string s

  pub filter_items : Items → Items
  filter_items no_items = no_items
  filter_items (item j items) = item (filter_sensitive_json j) (filter_items items)

  pub filter_fields : Fields → Fields
  filter_fields no_fields = no_fields
  filter_fields (field key value fields) =
      let kept = filter_sensitive_json value in
      field key (if is_sensitive key then json_string filtered_text else kept)
        (filter_fields fields)

abbrev join : List String → String
join [] = ""
join (v ∷ []) = v
join (v ∷ vs) = v <> ", " <> join vs

unfoldable pub filter_sensitive_headers : List (String × List String) → List (String × String)
unfolding is_sensitive
filter_sensitive_headers [] = []
filter_sensitive_headers ((name, values) ∷ headers) =
    (name, if is_sensitive name then filtered_text else join values)
    ∷ filter_sensitive_headers headers

abbrev or_error : Option String → String
or_error none = "[ERROR - Failed to marshal filtered JSON]"
or_error (some s) = s

module _ (unmarshal : String → Option Json) (marshal : Json → Option String) where
  abbrev filter_body : String → Option Json → String
  filter_body body none = if is_sensitive body then "[FILTERED - Contains sensitive data]" else body
  filter_body body (some j) = or_error (marshal (filter_sensitive_json j))

  unfoldable pub filter_sensitive_body : String → String
  filter_sensitive_body body = if str_eq body "" then "" else filter_body body (unmarshal body)

pub data Level : Type 0 where
  level_info level_warn level_error : Level

-- The level of `logResponse`; 0 is a status that was never written.
unfoldable pub response_level : ℕ → Level
response_level written =
    let status = if written == 0 then 200 else written in
    if leb 400 status && ltb status 500
    then level_warn
    else if leb 500 status
    then level_error
    else level_info
