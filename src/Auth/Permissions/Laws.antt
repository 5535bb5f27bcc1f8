-- ===== src/Auth/Permissions/Laws.antt =====
-- What the loops of internal/auth/permission_checker.go decide.
use expense_management.Prelude.{
  String, List, [], ◌∷◌, true, false, ◌||◌, ◌≡◌, refl, ◌↔◌, inl, inr, Bool-cases, eq_iff, str_eq,
  arith,
}
use mathlib.Core.List.{Memᴰ}
use expense_management.Auth.Permissions.{matches_any, has_permission, has_any_permission}

matches_any_sound : (p : String) (rs : List String) → matches_any p rs ≡ true → Memᴰ p rs
unfolding matches_any
matches_any_sound p [] h = cc
matches_any_sound p (r ∷ rs) h = elim (Bool-cases (str_eq p r)) [
  | inl same ↦ Memᴰ.head ((eq_iff p r).0 same)
  | inr other ↦ Memᴰ.tail (matches_any_sound p rs (ground arith))
]

matches_any_complete : (p : String) (rs : List String) → Memᴰ p rs → matches_any p rs ≡ true
unfolding matches_any
matches_any_complete p [] m = elim m [ ]
matches_any_complete p (r ∷ rs) (Memᴰ.head e) = ground (arith, eq_iff p r)
matches_any_complete p (r ∷ rs) (Memᴰ.tail m) = ground (arith, matches_any_complete p rs m)

-- A permission that is both held and among the required ones.
abbrev pub HasCommon : List String → List String → Type 0
HasCommon perms required = (p : String) × Memᴰ p perms × Memᴰ p required

has_any_permission_sound : (ps rs : List String) → has_any_permission ps rs ≡ true → HasCommon ps rs
unfolding has_any_permission
has_any_permission_sound [] rs h = cc
has_any_permission_sound (p ∷ ps) rs h = elim (Bool-cases (matches_any p rs)) [
  | inl here ↦ (p, Memᴰ.head refl, matches_any_sound p rs here)
  | inr later ↦ let (q, m, k) = has_any_permission_sound ps rs (ground arith) in (q, Memᴰ.tail m, k)
]

has_any_permission_complete :
    (q : String) (ps rs : List String) → Memᴰ q ps → Memᴰ q rs → has_any_permission ps rs ≡ true
unfolding has_any_permission
has_any_permission_complete q [] rs m k = elim m [ ]
has_any_permission_complete q (p ∷ ps) rs (Memᴰ.head e) k =
    ground (arith, matches_any_complete p rs (rw e at k))
has_any_permission_complete q (p ∷ ps) rs (Memᴰ.tail m) k =
    ground (arith, has_any_permission_complete q ps rs m k)

-- The loops of HasAnyPermission answer true exactly when some permission is both among the user's
-- and among the required ones.
pub has_any_permission_iff :
    (perms required : List String)
    → (has_any_permission perms required ≡ true) ↔ HasCommon perms required
has_any_permission_iff perms required = (
  has_any_permission_sound perms required,
  λ common. has_any_permission_complete common.0 perms required common.1 common.2,
)

-- The answer for a longer list of required permissions is the "or" of the answers for each.
pub has_any_permission-cons :
    (perms : List String) (r : String) (rs : List String)
    → has_any_permission perms (r ∷ rs) ≡ (has_permission perms r || has_any_permission perms rs)
unfolding has_any_permission has_permission
has_any_permission-cons [] r rs = refl
has_any_permission-cons (p ∷ ps) r rs = ground (arith, has_any_permission-cons ps r rs)

pub has_any_permission-nil : (perms : List String) → has_any_permission perms [] ≡ false
unfolding has_any_permission
has_any_permission-nil [] = refl
has_any_permission-nil (p ∷ ps) = ground (arith, has_any_permission-nil ps)
