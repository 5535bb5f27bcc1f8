-- ===== src/Transport/Middleware.antt =====
-- internal/transport/middleware/cors.go and recovery.go. The headers that `CORS` sets are left out.
use expense_management.Transport.{Served, served, panicked, panic_object, empty}

-- `r.Method`, as far as the code asks.
pub data Method : Type 0 where
  get post patch options : Method

-- What is run for a request, from a state.
abbrev pub Serve : Type 0 → Type 0 → Type 0
Serve S A = S → Served A × S

abbrev pub recovered : {A : Type 0} → Served A → Served A
recovered (served r) = served r
recovered panicked = served (record { status = 500; body = panic_object "Internal server error" })

module _ {S A : Type 0} where
  unfoldable pub cors : Method → Serve S A → Serve S A
  cors options next s = (served (record { status = 204; body = empty }), s)
  cors _ next s = next s

  unfoldable pub recovery_middleware : Serve S A → Serve S A
  recovery_middleware next s = let (r, s') = next s in (recovered r, s')
