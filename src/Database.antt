-- ===== src/Database.antt =====
-- The database as the repositories use it: one table of gorm.io/gorm over Postgres, which is not part
-- of this repository. It is a parameter, with what its documentation says of it as laws.
--
-- A condition is a test on rows. Every operation may fail for reasons of its own (a lost connection,
-- a constraint); gorm runs a write in a transaction, so a failed one leaves the rows as they were.
pub mod Memory
use expense_management.Prelude.{
  ℕ, ◌≤◌, String, List, [], ◌∷◌, ◌++◌, none, some, Bool, true, ◌≡◌, ℤ, pos, eq_ℤ, length, find,
  keep, update_where, All, Result, ok, err, Exec,
}
use mathlib.Core.List.{Memᴰ}
use expense_management.Errors.{GoError, record_not_found}

-- `Where(…).Order(…).Limit(…).Offset(…)`
pub record Select (Row : Type 0) : Type 0 where
  pub condition : Row → Bool
  pub order : String
  pub limit : ℤ
  pub offset : ℤ

pub record Table (Db Row : Type 0) : Type 0 where
  -- `Create`, with the row as it comes back: under its new key.
  pub create : Row → Exec Db GoError Row
  -- `Where(…).First(…)`, which orders by the primary key.
  pub first : (Row → Bool) → Db → Result GoError Row
  -- `Where(…).Order(…).First(…)`
  pub first_ordered : (Row → Bool) → String → Db → Result GoError Row
  -- `Find` of a limited and of an unlimited selection.
  pub find_page : Select Row → Db → Result GoError (List Row)
  pub find_all : (Row → Bool) → String → Db → Result GoError (List Row)
  pub count : (Row → Bool) → Db → Result GoError ℕ
  -- `Save`: all columns of the row with this key.
  pub save : Row → Exec Db GoError (Unit {0})
  -- `Where(…).Updates(…)`
  pub updates : (Row → Bool) → (Row → Row) → Exec Db GoError (Unit {0})

-- An order that puts the greatest value of a column first: what `First` answers under it is not
-- below any row that passes.
pub record IsGreatestFirst {Db Row : Type 0} (t : Table Db Row) (rows : Db → List Row)
    (order : String) (column : Row → ℕ) : Type 0 where
  pub greatest :
      (p : Row → Bool) (db : Db) (r : Row)
      → t.first_ordered p order db ≡ ok r
      → All (λ q. column q ≤ column r) (keep p (rows db))

-- `rows` are the rows of the table by primary key, `key` and `set_key` a row's primary key.
pub record IsTable {Db Row : Type 0} (t : Table Db Row) (rows : Db → List Row) (key : Row → ℤ)
    (set_key : ℤ → Row → Row) : Type 0 where
  pub create_ok :
      (r s : Row) (db : Db)
      → (t.create r db).0 ≡ ok s
      → (k : ℤ) × (s ≡ set_key k r)
        × (find (λ q. eq_ℤ (key q) k) (rows db) ≡ none)
        × (rows (t.create r db).1 ≡ rows db ++ s ∷ [])
  pub create_err :
      (r : Row) (db : Db) (e : GoError)
      → (t.create r db).0 ≡ err e
      → rows (t.create r db).1 ≡ rows db
  pub first_ok :
      (p : Row → Bool) (db : Db) (r : Row) → t.first p db ≡ ok r → find p (rows db) ≡ some r
  pub first_none :
      (p : Row → Bool) (db : Db) → t.first p db ≡ err record_not_found → find p (rows db) ≡ none
  pub first_ordered_ok :
      (p : Row → Bool) (order : String) (db : Db) (r : Row)
      → t.first_ordered p order db ≡ ok r
      → (p r ≡ true) × Memᴰ r (rows db)
  pub find_page_ok :
      (s : Select Row) (db : Db) (rs : List Row) (n : ℕ)
      → t.find_page s db ≡ ok rs
      → s.limit ≡ pos n
      → All (λ r. (s.condition r ≡ true) × Memᴰ r (rows db)) rs
        × (length rs ≤ n)
        × (length rs ≤ length (keep s.condition (rows db)))
  pub count_ok :
      (p : Row → Bool) (db : Db) (n : ℕ) → t.count p db ≡ ok n → n ≡ length (keep p (rows db))
  pub save_ok :
      (r old : Row) (db : Db)
      → find (λ q. eq_ℤ (key q) (key r)) (rows db) ≡ some old
      → (t.save r db).0 ≡ ok tt
      → rows (t.save r db).1 ≡ update_where (λ q. eq_ℤ (key q) (key r)) (λ q. r) (rows db)
  pub save_err :
      (r : Row) (db : Db) (e : GoError) → (t.save r db).0 ≡ err e → rows (t.save r db).1 ≡ rows db
  pub updates_ok :
      (p : Row → Bool) (f : Row → Row) (db : Db)
      → (t.updates p f db).0 ≡ ok tt
      → rows (t.updates p f db).1 ≡ update_where p f (rows db)
  pub updates_err :
      (p : Row → Bool) (f : Row → Row) (db : Db) (e : GoError)
      → (t.updates p f db).0 ≡ err e
      → rows (t.updates p f db).1 ≡ rows db
