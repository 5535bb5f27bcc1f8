-- ===== src/Expense/Query/Laws.antt =====
-- Pages and offsets of a list of expenses.
use expense_management.Prelude.{
  ℕ, ◌+◌, ◌*◌, ◌/◌, ◌≤◌, ◌<◌, String, some, ◌≡◌, arith, ℤ, pos, negsuc, refl, ◌≤ℤ◌, eq_iff,
  parse_int, sub64-pos, mul64-pos, add64-pos, div64-pos, add64, div64, parse_int-ne_nil,
}
use expense_management.Expense.Query.{
  ExpenseQueryParams, no_params, set_defaults, or_twenty, sized, paged, parse_from_request,
  get_offset,
}

-- What the repository is given: from 1 to 100 rows on a page, and pages counted from 1.
pub record IsPaged (q : ExpenseQueryParams) : Type 0 where
  pub some_rows : pos 1 ≤ℤ q.per_page
  pub few_rows : q.per_page ≤ℤ pos 100
  pub from_one : pos 1 ≤ℤ q.page

pub set_defaults-IsPaged : (q : ExpenseQueryParams) → IsPaged (set_defaults q)
unfolding set_defaults
set_defaults-IsPaged q = ground arith

-- Setting the defaults of the parameters twice is setting them once, so the service and the
-- handler see the same parameters.
pub set_defaults_idem : (q : ExpenseQueryParams) → set_defaults (set_defaults q) ≡ set_defaults q
unfolding set_defaults
set_defaults_idem q = ground (arith, eq_iff q.sort_by "", eq_iff q.sort_order "")

-- The size of a page, as a natural number.
pub page_size : (q : ExpenseQueryParams) → IsPaged q → (n : ℕ) × (q.per_page ≡ pos n) × (n ≤ 100)
page_size q paged' = go q.per_page paged'.some_rows paged'.few_rows
  where
    go : (z : ℤ) → pos 1 ≤ℤ z → z ≤ℤ pos 100 → (n : ℕ) × (z ≡ pos n) × (n ≤ 100)
    go (pos n) h k = (n, refl, omega arith)
    go (negsuc n) h k = absurd (omega arith)

-- Whatever the query string and the parameters before, the parsed parameters ask for 1 to 100
-- rows of a page that is counted from 1.
parse_from_request-IsPaged :
    (get : String → String) (q : ExpenseQueryParams) → IsPaged (parse_from_request get q)
unfolding parse_from_request
parse_from_request-IsPaged get q = set_defaults-IsPaged (record (paged get (sized get q)) {
  search = get "search";
  category_id = get "category_id";
  status = get "status";
  sort_by = get "sort_by";
  sort_order = get "sort_order";
})

-- The offset of page p + 1 with n rows a page is p * n, as long as p + 1 and p * n are below
-- 2^63.
get_offset_exact :
    (q : ExpenseQueryParams) (p n : ℕ)
    → q.page ≡ pos (p + 1)
    → q.per_page ≡ pos n
    → p * n < 9223372036854775808
    → p + 1 < 9223372036854775808
    → get_offset q ≡ pos (p * n)
unfolding get_offset
get_offset_exact q p n hp hn h k =
    rw (hp, hn, sub64-pos (p + 1) 1 (omega arith) k) (ground (arith, mul64-pos p n h))

module _ (get : String → String) (o n : ℕ) (no_page : get "page" ≡ "")
    (size : parse_int (get "per_page") ≡ some (pos n))
    (start : parse_int (get "offset") ≡ some (pos o)) (at_least : 1 ≤ n) (at_most : n ≤ 100)
    (fits : o < 4611686018427387904) where
  sized_here : sized get no_params ≡ record no_params { per_page = pos n }
  unfolding sized
  sized_here = rw (parse_int-ne_nil (get "per_page") (pos n) size, size) (ground arith)

  quotient_le : o / n ≤ o
  quotient_le = grind arith

  rows_le : o / n * n ≤ o
  rows_le = grind arith

  or_twenty_here : or_twenty (pos n) ≡ pos n
  unfolding or_twenty
  or_twenty_here = ground arith

  next_page : add64 (div64 (pos o) (pos n)) (pos 1) ≡ pos (o / n + 1)
  next_page =
      rw (div64-pos o n (omega (arith, quotient_le)))
        (add64-pos (o / n) 1 (omega (arith, quotient_le)))

  paged_here :
      paged get (record no_params { per_page = pos n })
      ≡ record no_params { per_page = pos n; page = pos (o / n + 1) }
  unfolding paged
  paged_here =
      rw (no_page, parse_int-ne_nil (get "offset") (pos o) start, start, or_twenty_here, next_page)
        (ground arith)

  -- A request with an offset below 2^62, a page size from 1 to 100, and no page, gets the page
  -- that the offset lies on: the offset that is used is the given one, rounded down to a multiple
  -- of the size.
  offset_rounds_down : get_offset (parse_from_request get no_params) ≡ pos (o / n * n)
  unfolding parse_from_request set_defaults
  offset_rounds_down =
      get_offset_exact (parse_from_request get no_params) (o / n) n
        (rw (sized_here, paged_here) (ground arith)) (rw (sized_here, paged_here) (ground arith))
        (omega (arith, rows_le)) (omega (arith, quotient_le))
