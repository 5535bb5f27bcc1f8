-- ===== src/Category.antt =====
-- internal/category: the categories of expenses. `get_all` is what `repo.GetAll` answers.
pub mod Laws
pub mod Postgres
use expense_management.Prelude.{
  ℕ, String, List, [], ◌∷◌, Option, none, some, Bool, true, false, ℤ, pos, str_eq, if◌then◌else◌,
  Result, ok, err,
}
use expense_management.Errors.{GoError}
use expense_management.Transport.{Response, write_json, write_error}

-- `category.Category`, and the row `categoryDatamodel.ExpenseCategory`, which has the same fields.
pub record Category : Type 0 where
  pub id : ℤ
  pub name : String
  pub description : String
  pub is_active : Bool
  pub created_at : ℕ
  pub updated_at : ℕ

pub record ExpenseCategory : Type 0 where
  pub id : ℤ
  pub name : String
  pub description : String
  pub is_active : Bool
  pub created_at : ℕ
  pub updated_at : ℕ

pub record CategoryResponse : Type 0 where
  pub name : String
  pub description : String

unfoldable pub is_active_category : Category → Bool
is_active_category c = c.is_active

unfoldable pub to_response : Category → CategoryResponse
to_response c = record { name = c.name; description = c.description }

unfoldable pub activate : ℕ → Category → Category
activate now c = record c { is_active = true; updated_at = now }

unfoldable pub deactivate : ℕ → Category → Category
deactivate now c = record c { is_active = false; updated_at = now }

unfoldable pub new_category : ℕ → String → String → Category
new_category now name description = record {
  id = pos 0;
  name = name;
  description = description;
  is_active = true;
  created_at = now;
  updated_at = now;
}

unfoldable pub to_data_model : Category → ExpenseCategory
to_data_model c = record {
  id = c.id;
  name = c.name;
  description = c.description;
  is_active = c.is_active;
  created_at = c.created_at;
  updated_at = c.updated_at;
}

unfoldable pub from_data_model : ExpenseCategory → Category
from_data_model c = record {
  id = c.id;
  name = c.name;
  description = c.description;
  is_active = c.is_active;
  created_at = c.created_at;
  updated_at = c.updated_at;
}

-- The loop of `GetAllCategories`.
active_responses : List ExpenseCategory → List CategoryResponse
unfolding from_data_model is_active_category to_response
active_responses [] = []
active_responses (row ∷ rows) =
    let category = from_data_model row in
    if is_active_category category
    then to_response category ∷ active_responses rows
    else active_responses rows

unfoldable pub get_all_categories :
    Result GoError (List ExpenseCategory) → Result GoError (List CategoryResponse)
unfolding active_responses
get_all_categories (err e) = err e
get_all_categories (ok rows) = ok (active_responses rows)

-- The loop of `GetCategoryByName`, which goes on past an inactive category of the name.
find_active : String → List ExpenseCategory → Option CategoryResponse
unfolding from_data_model is_active_category to_response
find_active name [] = none
find_active name (row ∷ rows) =
    let category = from_data_model row in
    if str_eq row.name name
    then (if is_active_category category
        then some (to_response category)
        else find_active name rows)
    else find_active name rows

unfoldable pub get_category_by_name :
    Result GoError (List ExpenseCategory) → String → Result GoError (Option CategoryResponse)
unfolding find_active
get_category_by_name (err e) name = err e
get_category_by_name (ok rows) name = ok (find_active name rows)

is_valid : Result GoError (Option CategoryResponse) → Bool
is_valid (err e) = false
is_valid (ok none) = false
is_valid (ok (some c)) = true

unfoldable pub is_valid_category : Result GoError (List ExpenseCategory) → String → Bool
unfolding is_valid get_category_by_name
is_valid_category get_all name = is_valid (get_category_by_name get_all name)

categories_response : Result GoError (List CategoryResponse) → Response (List CategoryResponse)
categories_response (err e) = write_error 500 "failed to get categories"
categories_response (ok categories) = write_json 200 categories

-- The handler `GetCategories`.
unfoldable pub get_categories :
    Result GoError (List ExpenseCategory) → Response (List CategoryResponse)
unfolding categories_response get_all_categories
get_categories get_all = categories_response (get_all_categories get_all)
