-- ===== src/Category/Laws.antt =====
-- Which categories internal/category answers with.
use expense_management.Prelude.{
  String, List, [], ◌∷◌, some, true, ◌≡◌, refl, ◌↔◌, inl, inr, Bool-cases, str_eq, eq_iff, arith,
  ok, sym, Option-cases,
}
use mathlib.Core.List.{Memᴰ}
use expense_management.Category.{
  ExpenseCategory, CategoryResponse, active_responses, find_active, get_category_by_name,
  is_valid_category, from_data_model, get_all_categories, is_active_category, to_response, is_valid,
}

-- Some response has the name.
abbrev pub HasName : String → List CategoryResponse → Type 0
HasName name cs = (c : CategoryResponse) × (c.name ≡ name) × Memᴰ c cs

find_active_sound :
    (name : String) (rows : List ExpenseCategory) (c : CategoryResponse)
    → find_active name rows ≡ some c
    → (c.name ≡ name) × Memᴰ c (active_responses rows)
unfolding find_active active_responses is_active_category from_data_model to_response
find_active_sound name [] c h = cc
find_active_sound name (row ∷ rows) c h = elim (Bool-cases row.is_active) [
  | inl active ↦ elim (Bool-cases (str_eq row.name name)) [
    | inl same ↦
        let e : to_response (from_data_model row) ≡ c = ground arith in
        (rw (← e) ((eq_iff row.name name).0 same), rw active (Memᴰ.head (sym e)))
    | inr other ↦
        let (named, there) = find_active_sound name rows c (ground arith) in
        (named, rw active (Memᴰ.tail there))
  ]
  | inr inactive ↦
      let (named, there) = find_active_sound name rows c (ground arith) in
      (named, rw inactive there)
]

find_active_complete :
    (name : String) (rows : List ExpenseCategory) (c : CategoryResponse)
    → c.name ≡ name
    → Memᴰ c (active_responses rows)
    → (d : CategoryResponse) × (find_active name rows ≡ some d)
unfolding find_active active_responses is_active_category from_data_model to_response
find_active_complete name [] c e m = elim m [ ]
find_active_complete name (row ∷ rows) c e m = elim (Bool-cases row.is_active) [
  | inl active ↦ elim (Bool-cases (str_eq row.name name)) [
    | inl same ↦ rw (same, active) (to_response (from_data_model row), refl)
    | inr other ↦ elim (rw active at m) [
      | Memᴰ.head k ↦ absurd (cc (other, (eq_iff row.name name).1 (rw k at e)))
      | Memᴰ.tail there ↦ rw other (find_active_complete name rows c e there)
    ]
  ]
  | inr inactive ↦
      let (d, found) = find_active_complete name rows c e (rw inactive at m) in (d, ground arith)
]

-- Where the categories can be read, a name is a valid category exactly when the list of all
-- active categories has one of that name.
is_valid_category_iff :
    (rows : List ExpenseCategory) (name : String)
    → (is_valid_category (ok rows) name ≡ true)
      ↔ ((cs : List CategoryResponse) × (get_all_categories (ok rows) ≡ ok cs) × HasName name cs)
unfolding is_valid_category is_valid get_category_by_name get_all_categories
is_valid_category_iff rows name = (
  λ h. elim (Option-cases (find_active name rows)) [
    | inl nothing ↦ absurd (cc (rw nothing at h))
    | inr (c, found) ↦ (
      active_responses rows,
      refl,
      (c, (find_active_sound name rows c found).0, (find_active_sound name rows c found).1),
    )
  ],
  λ (cs, got, (c, named, there)).
      let same : cs ≡ active_responses rows = ground arith in
      let (d, found) = find_active_complete name rows c named (rw same at there) in rw found refl,
)
