-- ===== src/Database/Memory.antt =====
-- A table in memory: a value that meets the laws of `IsTable`, and on which the code can be run.
use expense_management.Prelude.{
  ℕ, zero, suc, ◌+◌, ◌≤◌, List, [], ◌∷◌, ◌++◌, Option, none, some, Bool, true, ◌≡◌, refl, arith, ℤ,
  pos, pos_part, eq_ℤ, length, find, keep, update_where, All, Result, ok, err, Exec, Bool-cases,
  inl, inr, String, ltb, if◌then◌else◌, subst,
}
use mathlib.Core.List.{Memᴰ}
use expense_management.Errors.{GoError, record_not_found, database}
use expense_management.Database.{Select, Table, IsTable, IsGreatestFirst}

module _ {A : Type 0} where
  take : ℕ → List A → List A
  take zero xs = []
  take (suc n) [] = []
  take (suc n) (x ∷ xs) = x ∷ take n xs

  drop : ℕ → List A → List A
  drop zero xs = xs
  drop (suc n) [] = []
  drop (suc n) (x ∷ xs) = drop n xs

  length-take : (n : ℕ) (xs : List A) → (length (take n xs) ≤ n) × (length (take n xs) ≤ length xs)
  unfolding take
  length-take zero xs = omega arith
  length-take (suc n) [] = omega arith
  length-take (suc n) (x ∷ xs) = omega (arith, length-take n xs)

  length-drop : (n : ℕ) (xs : List A) → length (drop n xs) ≤ length xs
  unfolding drop
  length-drop zero xs = omega arith
  length-drop (suc n) [] = omega arith
  length-drop (suc n) (x ∷ xs) = omega (arith, length-drop n xs)

  All-take : (P : A → Type 0) (n : ℕ) (xs : List A) → All P xs → All P (take n xs)
  unfolding take
  All-take P zero xs h = tt
  All-take P (suc n) [] h = tt
  All-take P (suc n) (x ∷ xs) (p, h) = (p, All-take P n xs h)

  All-drop : (P : A → Type 0) (n : ℕ) (xs : List A) → All P xs → All P (drop n xs)
  unfolding drop
  All-drop P zero xs h = h
  All-drop P (suc n) [] h = tt
  All-drop P (suc n) (x ∷ xs) (p, h) = All-drop P n xs h

  All-weaken : (P Q : A → Type 0) → ((a : A) → P a → Q a) → (xs : List A) → All P xs → All Q xs
  All-weaken P Q f [] h = tt
  All-weaken P Q f (x ∷ xs) (p, h) = (f x p, All-weaken P Q f xs h)

  All-keep : (p : A → Bool) (xs : List A) → All (λ a. (p a ≡ true) × Memᴰ a xs) (keep p xs)
  All-keep p [] = tt
  All-keep p (x ∷ xs) =
      let later =
        All-weaken (λ a. (p a ≡ true) × Memᴰ a xs) (λ a. (p a ≡ true) × Memᴰ a (x ∷ xs))
          (λ a h. (h.0, Memᴰ.tail h.1)) (keep p xs) (All-keep p xs) in
      elim (Bool-cases (p x)) [
        | inl yes' ↦ rw yes' ((yes', Memᴰ.head refl), later)
        | inr no' ↦ rw no' later
      ]

module _ {A : Type 0} (weight : A → ℕ) where
  heavier : A → A → A
  heavier x y = if ltb (weight x) (weight y) then y else x

  -- The first element of the greatest weight, of a list with a first element.
  heaviest : A → List A → A
  unfolding heavier
  heaviest x [] = x
  heaviest x (y ∷ ys) = heaviest (heavier x y) ys

  greatest : List A → Option A
  unfolding heaviest
  greatest [] = none
  greatest (x ∷ xs) = some (heaviest x xs)

  heavier_lem : (x y : A) → (weight x ≤ weight (heavier x y)) × (weight y ≤ weight (heavier x y))
  unfolding heavier
  heavier_lem x y = elim (Bool-cases (ltb (weight x) (weight y))) [
    | inl less ↦ rw less (ground arith, ground arith)
    | inr more ↦ rw more (ground arith, ground arith)
  ]

  All-heavier : (P : A → Type 0) (x y : A) → P x → P y → P (heavier x y)
  unfolding heavier
  All-heavier P x y h k = elim (Bool-cases (ltb (weight x) (weight y))) [
    | inl less ↦ rw less k
    | inr more ↦ rw more h
  ]

  All-heaviest : (P : A → Type 0) (x : A) (xs : List A) → P x → All P xs → P (heaviest x xs)
  unfolding heaviest
  All-heaviest P x [] h hs = h
  All-heaviest P x (y ∷ ys) h (k, ks) = All-heaviest P (heavier x y) ys (All-heavier P x y h k) ks

  heaviest_lem :
      (x : A) (xs : List A)
      → (weight x ≤ weight (heaviest x xs)) × All (λ q. weight q ≤ weight (heaviest x xs)) xs
  unfolding heaviest
  heaviest_lem x [] = (omega arith, tt)
  heaviest_lem x (y ∷ ys) =
      let (h, hs) = heaviest_lem (heavier x y) ys in
      let (l, r) = heavier_lem x y in (omega arith, (omega arith, hs))

  All-greatest : (P : A → Type 0) (xs : List A) (a : A) → greatest xs ≡ some a → All P xs → P a
  unfolding greatest
  All-greatest P [] a e h = absurd cc
  All-greatest P (x ∷ xs) a e (h, hs) =
      let same : heaviest x xs ≡ a = cc in subst P same (All-heaviest P x xs h hs)

  greatest_lem : (xs : List A) (a : A) → greatest xs ≡ some a → All (λ q. weight q ≤ weight a) xs
  unfolding greatest
  greatest_lem [] a e = tt
  greatest_lem (x ∷ xs) a e =
      let same : heaviest x xs ≡ a = cc in
      subst (λ b. All (λ q. weight q ≤ weight b) (x ∷ xs)) same (heaviest_lem x xs)

-- `weight` is the value that an `ORDER BY` sorts the rows by, the greatest first.
module _ {Row : Type 0} (weight : String → Row → ℕ) (key : Row → ℤ) (set_key : ℤ → Row → Row) where
  found : Option Row → Result GoError Row
  found none = err record_not_found
  found (some r) = ok r

  fresh : List Row → ℤ
  fresh db = pos (length db + 1)

  insert_if : Option Row → Row → Exec (List Row) GoError Row
  insert_if none s db = (ok s, db ++ s ∷ [])
  insert_if (some other) s db = (err (database "duplicate key"), db)

  store_or : Option Row → Row → Exec (List Row) GoError (Unit {0})
  store_or none r db = (ok tt, db ++ r ∷ [])
  store_or (some old) r db = (ok tt, update_where (λ q. eq_ℤ (key q) (key r)) (λ q. r) db)

  unfoldable pub memory : Table (List Row) Row
  unfolding found fresh insert_if store_or take drop greatest
  memory = record {
    create = λ r db. insert_if (find (λ q. eq_ℤ (key q) (fresh db)) db) (set_key (fresh db) r) db;
    first = λ p db. found (find p db);
    first_ordered = λ p order db. found (greatest (weight order) (keep p db));
    find_page =
        λ s db. ok (take (pos_part s.limit) (drop (pos_part s.offset) (keep s.condition db)));
    find_all = λ p order db. ok (keep p db);
    count = λ p db. ok (length (keep p db));
    save = λ r db. store_or (find (λ q. eq_ℤ (key q) (key r)) db) r db;
    updates = λ p f db. (ok tt, update_where p f db);
  }

  found-eq_ok : (o : Option Row) (r : Row) → found o ≡ ok r → o ≡ some r
  unfolding found
  found-eq_ok o r h = ground arith

  found-eq_none : (o : Option Row) → found o ≡ err record_not_found → o ≡ none
  unfolding found
  found-eq_none o h = ground arith

  memory_create_ok :
      (r s : Row) (db : List Row)
      → (memory.create r db).0 ≡ ok s
      → (k : ℤ) × (s ≡ set_key k r)
        × (find (λ q. eq_ℤ (key q) k) db ≡ none)
        × ((memory.create r db).1 ≡ db ++ s ∷ [])
  unfolding memory insert_if
  memory_create_ok r s db h = (fresh db, ground arith, ground arith, ground arith)

  memory_find_page_ok :
      (s : Select Row) (db rs : List Row) (n : ℕ)
      → memory.find_page s db ≡ ok rs
      → s.limit ≡ pos n
      → All (λ r. (s.condition r ≡ true) × Memᴰ r db) rs
        × (length rs ≤ n)
        × (length rs ≤ length (keep s.condition db))
  unfolding memory
  memory_find_page_ok s db rs n h e =
      let kept = keep s.condition db in
      let from = drop (pos_part s.offset) kept in
      let page : take (pos_part s.limit) from ≡ rs = ground arith in
      rw (← page, e)
        (
          All-take _ n from (All-drop _ (pos_part s.offset) kept (All-keep s.condition db)),
          (length-take n from).0,
          omega (arith, length-take n from, length-drop (pos_part s.offset) kept),
        )

  pub memory-IsTable : IsTable memory (λ db. db) key set_key
  unfolding memory insert_if store_or
  memory-IsTable = record {
    create_ok = memory_create_ok;
    create_err = λ r db e h. ground arith;
    first_ok = λ p db r h. found-eq_ok (find p db) r h;
    first_none = λ p db h. found-eq_none (find p db) h;
    first_ordered_ok = λ p order db r h.
        All-greatest (weight order) (λ a. (p a ≡ true) × Memᴰ a db) (keep p db) r
          (found-eq_ok (greatest (weight order) (keep p db)) r h) (All-keep p db);
    find_page_ok = memory_find_page_ok;
    count_ok = λ p db n h. ground arith;
    save_ok = λ r old db there h. rw there;
    save_err = λ r db e h. ground arith;
    updates_ok = λ p f db h. refl;
    updates_err = λ p f db e h. cc h;
  }

  -- The order of the table in memory.
  pub memory-IsGreatestFirst :
      (order : String) → IsGreatestFirst memory (λ db. db) order (weight order)
  unfolding memory
  memory-IsGreatestFirst order = record {
    greatest = λ p db r h.
        greatest_lem (weight order) (keep p db) r
          (found-eq_ok (greatest (weight order) (keep p db)) r h);
  }
