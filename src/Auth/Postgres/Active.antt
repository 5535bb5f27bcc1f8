-- ===== src/Auth/Postgres/Active.antt =====
-- internal/auth/postgres/auth.go: the repository answers only for users who are active, with the
-- permissions that the iteration came to.
use expense_management.Prelude.{
  String, List, [], ◌∷◌, ◌++◌, none, some, Bool, true, ◌≡◌, refl, ap, sym, ◌∙◌, subst, ◌⊎◌, inl,
  inr, ℤ, eq_ℤ_iff, eq_iff, arith, keep, map, Result, ok, err, Option-cases, steps_ok,
}
use mathlib.Core.List.{Memᴰ, append-nil}
use expense_management.Errors.{GoError}
use expense_management.Transport.{User}
use expense_management.Auth.Postgres.{
  Queries, UserRow, GrantRow, Rows, get_user_with_permissions, get_password_for_username, ScanError,
  no_rows, failed, user_not_found, scan_names, active_with_id, active_with_email, granted_to,
}

-- What the database answers: a row that meets the condition; and the names of the rows that do, in
-- the order in which they come, up to where the iteration stopped, which is behind the last of them
-- unless `Err` answers an error.
pub record IsQueries {Db : Type 0} (sql : Queries Db) (users : Db → List UserRow)
    (grants : Db → List GrantRow) : Type 0 where
  pub user_where_ok :
      (p : UserRow → Bool) (db : Db) (r : UserRow)
      → sql.user_where p db ≡ ok r
      → (p r ≡ true) × Memᴰ r (users db)
  pub names_where_ok :
      (p : GrantRow → Bool) (db : Db) (rows : Rows) (names : List String)
      → sql.names_where p db ≡ ok rows
      → rows.scans ≡ map ok names
      → (missed : List String) × (names ++ missed ≡ map (λ g. g.name) (keep p (grants db)))
        × ((rows.iteration_error ≡ none) → missed ≡ [])

user_not_found-ok :
    {A : Type 0} (r : Result ScanError A) (a : A) → user_not_found r ≡ ok a → r ≡ ok a
user_not_found-ok (ok b) a h = ap ok (cc h)
user_not_found-ok (err no_rows) a h = absurd cc
user_not_found-ok (err (failed e)) a h = absurd cc

-- The loop keeps every row, in order.
scan_names-ok :
    (rows : List (Result GoError String)) (names : List String)
    → scan_names rows ≡ ok names
    → rows ≡ map ok names
unfolding scan_names
scan_names-ok [] names h =
    let none_left : [] ≡ names = cc in
    subst (λ ns. ◌≡◌ {A = List (Result GoError String)} [] (map ok ns)) none_left refl
scan_names-ok (err e ∷ rows) names h = absurd cc
scan_names-ok (ok name ∷ rows) names h =
    let (rest, scanned, whole) = steps_ok (scan_names rows) _ names h in
    let same : name ∷ rest ≡ names = cc in
    subst (λ ns. ok name ∷ rows ≡ map ok ns) same
      (ap (λ rs. ok name ∷ rs) (scan_names-ok rows rest scanned))

module _ {Db : Type 0} (sql : Queries Db) (users : Db → List UserRow) (grants : Db → List GrantRow)
    (laws : IsQueries sql users grants) where
  -- The names that are granted to a user.
  abbrev pub granted : ℤ → Db → List String
  granted user_id db = map (λ g. g.name) (keep (granted_to user_id) (grants db))

  -- Names that are all that the user was granted, or, if the iteration ended in an error, the first
  -- of them.
  abbrev pub IsGranted : ℤ → Db → List String → Type 0
  IsGranted user_id db names =
      (rows : Rows) × (sql.names_where (granted_to user_id) db ≡ ok rows)
      × (((rows.iteration_error ≡ none) × (names ≡ granted user_id db))
          ⊎ ((e : GoError) × (missed : List String) × (rows.iteration_error ≡ some e)
              × (names ++ missed ≡ granted user_id db)))

  scanned-IsGranted :
      (user_id : ℤ) (db : Db) (rows : Rows) (names : List String)
      → sql.names_where (granted_to user_id) db ≡ ok rows
      → scan_names rows.scans ≡ ok names
      → IsGranted user_id db names
  scanned-IsGranted user_id db rows names listed scanned =
      let (missed, whole, none_missed) =
        laws.names_where_ok (granted_to user_id) db rows names listed
          (scan_names-ok rows.scans names scanned) in
      elim (Option-cases rows.iteration_error) [
        | inl complete ↦
            let all : names ++ [] ≡ granted user_id db =
              subst (λ ns. names ++ ns ≡ granted user_id db) (none_missed complete) whole in
            (rows, listed, inl (complete, sym (append-nil names) ∙ all))
        | inr (e, broken) ↦ (rows, listed, inr (e, missed, broken, whole))
      ]

  -- For a database that answers queries as documented, a user whom the repository answers is a
  -- row of the table with the asked id that is active, with its email; the permissions are the
  -- names that were granted to the id, in the order of the query, all of them if the iteration
  -- over the rows ended without an error, and otherwise the first of them, since that error is
  -- not asked for.
  pub get_user_with_permissions-active :
      (user_id : ℤ) (db : Db) (user : User)
      → get_user_with_permissions sql user_id db ≡ ok user
      → (r : UserRow) × Memᴰ r (users db)
        × (r.is_active ≡ true)
        × (r.id ≡ user_id)
        × (user.id ≡ user_id)
        × (user.email ≡ r.email)
        × IsGranted user_id db user.permissions
  unfolding get_user_with_permissions active_with_id
  get_user_with_permissions-active user_id db user h =
      let (r, found, rest) =
        steps_ok (user_not_found (sql.user_where (active_with_id user_id) db)) _ user h in
      let (rows, listed, rest') = steps_ok (sql.names_where (granted_to user_id) db) _ user rest in
      let (names, scanned, last) = steps_ok (scan_names rows.scans) _ user rest' in
      let (passes, m) =
        laws.user_where_ok (active_with_id user_id) db r
          (user_not_found-ok (sql.user_where (active_with_id user_id) db) r found) in
      let whole : record { id = r.id; email = r.email; permissions = names } ≡ user = cc in
      let asked : r.id ≡ user_id = ground (arith, eq_ℤ_iff r.id user_id) in
      (
        r,
        m,
        ground arith,
        asked,
        ap (λ u. u.id) (sym whole) ∙ asked,
        ap (λ u. u.email) (sym whole),
        subst (λ u. IsGranted user_id db u.permissions) whole
            (scanned-IsGranted user_id db rows names listed scanned),
      )

  -- A password hash and an id are answered only from a row of the email that is active.
  get_password_for_username-active :
      (email hash id : String) (db : Db)
      → get_password_for_username sql email db ≡ ok (hash, id)
      → (r : UserRow) × Memᴰ r (users db)
        × (r.is_active ≡ true)
        × (r.email ≡ email)
        × (hash ≡ r.password_hash)
        × (id ≡ r.id_text)
  unfolding get_password_for_username active_with_email
  get_password_for_username-active email hash id db h =
      let (r, found, last) =
        steps_ok (user_not_found (sql.user_where (active_with_email email) db)) _ (hash, id) h in
      let (passes, m) =
        laws.user_where_ok (active_with_email email) db r
          (user_not_found-ok (sql.user_where (active_with_email email) db) r found) in
      (r, m, ground arith, ground (arith, eq_iff r.email email), cc, cc)
