-- ===== src/Config/Origins.antt =====
-- internal/config.go: which configurations of the server are accepted.
use expense_management.Prelude.{
  String, List, [], ◌∷◌, Option, none, some, ◌≡◌, ◌≢◌, ◌↔◌, ◌⊎◌, inl, inr, refl, ◌≤ℤ◌, str_eq,
  eq_iff, arith, Bool-cases, trim_space, split, All, Option-cases, if◌then◌else◌,
}
use expense_management.Errors.{GoError}
use expense_management.Config.{ServerConfig}
use expense_management.Config.Validation.{validate_server, check_origins, check_timeouts}

module _ (url_parse : String → Option GoError) where
  -- An origin, less the space around it, is "*" or a URL.
  abbrev pub IsOrigin : String → Type 0
  IsOrigin o = (trim_space o ≡ "*") ⊎ (url_parse (trim_space o) ≡ none)

  abbrev pub IsServer : ServerConfig → Type 0
  IsServer c =
      ((c.allowed_origins ≡ "") ⊎ All IsOrigin (split c.allowed_origins 44))
      × (c.read_header_timeout ≤ℤ c.read_timeout)

  check_origins_iff : (os : List String) → (check_origins url_parse os ≡ none) ↔ All IsOrigin os
  unfolding check_origins
  check_origins_iff [] = (λ h. tt, λ h. refl)
  check_origins_iff (o ∷ os) =
      let (p, p') = check_origins_iff os in
      elim (Bool-cases (str_eq (trim_space o) "*")) [
        | inl any ↦
            let is_any = (eq_iff (trim_space o) "*").0 any in
            rw any (λ h. (inl is_any, p h), λ h. p' h.1)
        | inr other ↦
            let not_any : trim_space o ≢ "*" = λ e. cc (other, (eq_iff (trim_space o) "*").1 e) in
            elim (Option-cases (url_parse (trim_space o))) [
              | inl parses ↦ rw (other, parses) (λ h. (inr refl, p h), λ h. p' h.1)
              | inr (e, fails) ↦
                  rw (other, fails)
                    (λ h. absurd cc, λ h. absurd (elim h.0 [ inl k ↦ not_any k | inr k ↦ cc k ]))
            ]
      ]

  origins_iff :
      (c : ServerConfig)
      → ((if str_eq c.allowed_origins ""
            then none
            else check_origins url_parse (split c.allowed_origins 44))
          ≡ none)
        ↔ ((c.allowed_origins ≡ "") ⊎ All IsOrigin (split c.allowed_origins 44))
  origins_iff c =
      let (p, p') = check_origins_iff (split c.allowed_origins 44) in
      elim (Bool-cases (str_eq c.allowed_origins "")) [
        | inl empty ↦
            let is_empty = (eq_iff c.allowed_origins "").0 empty in
            rw empty (λ h. inl is_empty, λ h. refl)
        | inr given ↦
            let not_empty : c.allowed_origins ≢ "" =
              λ e. cc (given, (eq_iff c.allowed_origins "").1 e) in
            rw given (λ h. inr (p h), λ h. elim h [ inl k ↦ absurd (not_empty k) | inr k ↦ p' k ])
      ]

  check_timeouts_iff :
      (c : ServerConfig) (origins : Option GoError)
      → (check_timeouts c origins ≡ none)
        ↔ ((origins ≡ none) × (c.read_header_timeout ≤ℤ c.read_timeout))
  check_timeouts_iff c none = (λ h. (refl, ground arith), λ h. ground arith)
  check_timeouts_iff c (some e) = (λ h. absurd cc, λ h. absurd cc)

  pub validate_server_iff : (c : ServerConfig) → (validate_server url_parse c ≡ none) ↔ IsServer c
  unfolding validate_server
  validate_server_iff c =
      let (t, t') = check_timeouts_iff c (
        if str_eq c.allowed_origins ""
        then none
        else check_origins url_parse (split c.allowed_origins 44)) in
      let (o, o') = origins_iff c in (λ h. (o (t h).0, (t h).1), λ h. t' (o' h.0, h.1))
