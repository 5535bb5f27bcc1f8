-- ===== src/Expense/Query.antt =====
-- internal/expense/dto.go: the parameters of a list of expenses. `int` has 64 bits.
pub mod Laws
use expense_management.Prelude.{
  String, Option, none, some, Bool, ◌||◌, ◌&&◌, ℤ, pos, ltb_ℤ, leb_ℤ, str_eq, if◌then◌else◌,
  parse_int, sub64, add64, mul64, div64,
}

pub record ExpenseQueryParams : Type 0 where
  pub per_page : ℤ
  pub page : ℤ
  pub search : String
  pub category_id : String
  pub status : String
  pub sort_by : String
  pub sort_order : String

-- `&ExpenseQueryParams{}`
abbrev pub no_params : ExpenseQueryParams
no_params = record {
  per_page = pos 0;
  page = pos 0;
  search = "";
  category_id = "";
  status = "";
  sort_by = "";
  sort_order = "";
}

unfoldable pub set_defaults : ExpenseQueryParams → ExpenseQueryParams
set_defaults q = record q {
  per_page = if leb_ℤ q.per_page (pos 0) || ltb_ℤ (pos 100) q.per_page then pos 20 else q.per_page;
  page = if leb_ℤ q.page (pos 0) then pos 1 else q.page;
  sort_by = if str_eq q.sort_by "" then "created_at" else q.sort_by;
  sort_order = if str_eq q.sort_order "" then "desc" else q.sort_order;
}

per_page_from : Option ℤ → ExpenseQueryParams → ExpenseQueryParams
per_page_from none q = q
per_page_from (some pp) q =
    if ltb_ℤ (pos 0) pp && leb_ℤ pp (pos 100) then record q { per_page = pp } else q

page_from : Option ℤ → ExpenseQueryParams → ExpenseQueryParams
page_from none q = q
page_from (some p) q = if ltb_ℤ (pos 0) p then record q { page = p } else q

or_twenty : ℤ → ℤ
or_twenty per_page = if leb_ℤ per_page (pos 0) then pos 20 else per_page

offset_from : Option ℤ → ExpenseQueryParams → ExpenseQueryParams
unfolding or_twenty
offset_from none q = q
offset_from (some offset) q =
    if leb_ℤ (pos 0) offset
    then (let size = or_twenty q.per_page in
        record q {
          per_page = size;
          page = if ltb_ℤ (pos 0) size then add64 (div64 offset size) (pos 1) else pos 1;
        })
    else q

-- The two statements on `per_page`, and on `page` or `offset`.
sized : (String → String) → ExpenseQueryParams → ExpenseQueryParams
unfolding per_page_from
sized get q = if str_eq (get "per_page") "" then q else per_page_from (parse_int (get "per_page")) q

paged : (String → String) → ExpenseQueryParams → ExpenseQueryParams
unfolding page_from offset_from
paged get q =
    if str_eq (get "page") ""
    then (if str_eq (get "offset") "" then q else offset_from (parse_int (get "offset")) q)
    else page_from (parse_int (get "page")) q

-- `ParseFromRequest`; `get` is `r.URL.Query().Get`, which answers "" for what is not there.
unfoldable pub parse_from_request : (String → String) → ExpenseQueryParams → ExpenseQueryParams
unfolding sized paged
parse_from_request get q = set_defaults (record (paged get (sized get q)) {
  search = get "search";
  category_id = get "category_id";
  status = get "status";
  sort_by = get "sort_by";
  sort_order = get "sort_order";
})

unfoldable pub get_offset : ExpenseQueryParams → ℤ
get_offset q =
    let offset = mul64 (sub64 q.page (pos 1)) q.per_page in
    if ltb_ℤ offset (pos 0) then pos 0 else offset
