-- ===== src/Transport/Logging/Filtered.antt =====
-- internal/transport/middleware/logging.go: what the filter of a JSON body leaves under
-- a sensitive name. The raw query is logged unfiltered.
use expense_management.Prelude.{
  String, Option, none, some, true, false, Bool-cases, Option-cases, ◌≡◌, ◌↔◌, refl, ap, ◌∙◌, ◌⊎◌,
  inl, inr, subst, eq_iff, str_eq,
}
use expense_management.Transport.Logging.{
  Json, json_null, json_bool, json_number, json_string, json_array, json_object, Items, no_items,
  item, Fields, no_fields, field, is_sensitive, filtered_text, filter_sensitive_json, filter_items,
  filter_fields, filter_sensitive_body,
}

-- Every value under a sensitive name, at any depth, is the filtered text.
unfoldable mutual
  pub IsClean : Json → Type 0
  IsClean (json_object fields) = AreClean fields
  IsClean (json_array items) = AllClean items
  IsClean _ = Unit

  pub AllClean : Items → Type 0
  AllClean no_items = Unit
  AllClean (item j items) = IsClean j × AllClean items

  pub AreClean : Fields → Type 0
  AreClean no_fields = Unit
  AreClean (field key value fields) =
      ((is_sensitive key ≡ true) × (value ≡ json_string filtered_text)
        ⊎ (is_sensitive key ≡ false) × IsClean value)
      × AreClean fields

mutual
  unfolding filter_sensitive_json IsClean

  filtered-IsClean : (j : Json) → IsClean (filter_sensitive_json j)
  filtered-IsClean (json_object fields) = fields-AreClean fields
  filtered-IsClean (json_array items) = items-AllClean items
  filtered-IsClean json_null = tt
  filtered-IsClean (json_bool b) = tt
  filtered-IsClean (json_number n) = tt
  filtered-IsClean (json_string s) = tt

  items-AllClean : (items : Items) → AllClean (filter_items items)
  items-AllClean no_items = tt
  items-AllClean (item j items) = (filtered-IsClean j, items-AllClean items)

  fields-AreClean : (fields : Fields) → AreClean (filter_fields fields)
  fields-AreClean no_fields = tt
  fields-AreClean (field key value fields) = (
    elim (Bool-cases (is_sensitive key)) [
      | inl secret ↦ inl (secret, rw secret refl)
      | inr open_name ↦ inr (open_name, rw open_name (filtered-IsClean value))
    ],
    fields-AreClean fields,
  )

mutual
  unfolding filter_sensitive_json IsClean

  clean-kept : (j : Json) → IsClean j → filter_sensitive_json j ≡ j
  clean-kept (json_object fields) h = ap json_object (fields-kept fields h)
  clean-kept (json_array items) h = ap json_array (items-kept items h)
  clean-kept json_null h = refl
  clean-kept (json_bool b) h = refl
  clean-kept (json_number n) h = refl
  clean-kept (json_string s) h = refl

  items-kept : (items : Items) → AllClean items → filter_items items ≡ items
  items-kept no_items h = refl
  items-kept (item j items) (h, hs) = rw (clean-kept j h, items-kept items hs) refl

  fields-kept : (fields : Fields) → AreClean fields → filter_fields fields ≡ fields
  fields-kept no_fields h = refl
  fields-kept (field key value fields) (inl (secret, same), hs) =
      rw (secret, same, fields-kept fields hs) refl
  fields-kept (field key value fields) (inr (open_name, h), hs) =
      rw (open_name, clean-kept value h, fields-kept fields hs) refl

-- In a filtered JSON value, whatever is under a sensitive name, at any depth, is the filtered
-- text; filtering changes nothing exactly where that was so already, and so filtering twice is
-- filtering once.
pub filter_sensitive_json-IsClean :
    (j : Json)
    → IsClean (filter_sensitive_json j)
      × (IsClean j ↔ (filter_sensitive_json j ≡ j))
      × (filter_sensitive_json (filter_sensitive_json j) ≡ filter_sensitive_json j)
filter_sensitive_json-IsClean j = (
  filtered-IsClean j,
  (λ h. clean-kept j h, λ same. subst IsClean same (filtered-IsClean j)),
  clean-kept (filter_sensitive_json j) (filtered-IsClean j),
)

module _ (unmarshal : String → Option Json) (marshal : Json → Option String) where
  -- What is logged of a body.
  abbrev pub LoggedBody : String → String → Type 0
  LoggedBody body logged =
      (body ≡ "") × (logged ≡ "")
      ⊎ (unmarshal body ≡ none) × (is_sensitive body ≡ false) × (logged ≡ body)
      ⊎ (unmarshal body ≡ none)
        × (is_sensitive body ≡ true)
        × (logged ≡ "[FILTERED - Contains sensitive data]")
      ⊎ ((j : Json) × IsClean j
          × ((marshal j ≡ some logged)
              ⊎ (marshal j ≡ none) × (logged ≡ "[ERROR - Failed to marshal filtered JSON]")))

  -- Of a body, the log gets nothing if it is empty; if it is no JSON, the body as it is if it
  -- contains no sensitive word, and a fixed text otherwise; and if it is JSON, the text of a
  -- value in which everything under a sensitive name is filtered, or a fixed text if that cannot
  -- be written.
  filter_sensitive_body-LoggedBody :
      (body : String) → LoggedBody body (filter_sensitive_body unmarshal marshal body)
  unfolding filter_sensitive_body
  filter_sensitive_body-LoggedBody body = elim (Bool-cases (str_eq body "")) [
    | inl blank ↦ inl ((eq_iff body "").0 blank, rw blank refl)
    | inr there ↦ elim (Option-cases (unmarshal body)) [
      | inl text ↦ elim (Bool-cases (is_sensitive body)) [
        | inl secret ↦ inr (inr (inl (text, secret, rw (there, text, secret) refl)))
        | inr plain ↦ inr (inl (text, plain, rw (there, text, plain) refl))
      ]
      | inr (j, parsed) ↦ elim (Option-cases (marshal (filter_sensitive_json j))) [
        | inl failed ↦ inr (
            inr (
              inr (
                filter_sensitive_json j,
                filtered-IsClean j,
                inr (failed, rw (there, parsed, failed) refl),
              )))
        | inr (s, printed) ↦ inr (
            inr (
              inr (
                filter_sensitive_json j,
                filtered-IsClean j,
                inl (printed ∙ ap some (rw (there, parsed, printed) refl)),
              )))
      ]
    ]
  ]
