-- ===== src/Transport/Header.antt =====
-- internal/transport/base_handler.go: what `ExtractTokenFromHeader` finds.
use expense_management.Prelude.{String, ◌<>◌, ◌≡◌}
use text.Mathlib.TextPositions.{slice-append_right, starts_with-append, len-append}
use expense_management.Transport.{extract_token_from_header}

pub extract_token_from_header-bearer :
    (token : String) → extract_token_from_header ("Bearer " <> token) ≡ token
unfolding extract_token_from_header
extract_token_from_header-bearer token =
    rw (starts_with-append "Bearer " token, len-append "Bearer " token)
      (slice-append_right "Bearer " token)
