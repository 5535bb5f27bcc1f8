-- ===== src/Rest/Guarded.antt =====
-- internal/transport/rest/router.go: no route reaches its handler past its middleware.
use expense_management.Prelude.{
  ℕ, String, List, [], ◌∷◌, ◌++◌, some, Bool, true, false, ◌≡◌, refl, ap, ◌∙◌, subst, ◌⊎◌, inl, inr,
  All, ok,
}
use expense_management.Transport.{
  User, Response, Served, served, http_error, write_error, extract_token_from_header,
}
use expense_management.Transport.Middleware.{get, post, recovery_middleware, recovered}
use expense_management.Auth.Rbac.{
  HandlerFunc, default_checker, require_approve_expense, require_reject_expense,
  require_retry_payment,
}
use expense_management.Auth.Rbac.Access.{LetsThrough, middleware-LetsThrough}
use expense_management.Auth.Permissions.Laws.{HasCommon}
use expense_management.Auth.Tokens.{Claims}
use expense_management.Auth.Service.{ServiceApi}
use expense_management.Auth.Handlers.{auth_middleware, uid_of}
use expense_management.Auth.Handlers.Middleware.{auth_middleware_outcome}
use expense_management.Rest.{
  Route, Endpoint, Guard, auth_guard, approve_guard, reject_guard, retry_guard, payment_callback,
  categories, current_user, create_expense, get_all_expenses, get_expense, approve_expense,
  reject_expense, retry_payment, handle, health_routes, auth_routes, api_routes, route, group,
  when_present, expense_routes, protected_routes, Present, register_all_routes,
}

-- The middleware that each handler has to be behind.
unfoldable pub required_guards : Endpoint → List Guard
required_guards current_user = auth_guard ∷ []
required_guards create_expense = auth_guard ∷ []
required_guards get_all_expenses = auth_guard ∷ []
required_guards get_expense = auth_guard ∷ []
required_guards approve_expense = auth_guard ∷ approve_guard ∷ []
required_guards reject_expense = auth_guard ∷ reject_guard ∷ []
required_guards retry_payment = auth_guard ∷ retry_guard ∷ []
required_guards _ = []

-- Behind `outer`, every route has the middleware that its handler needs.
abbrev Behind : List Guard → List Route → Type 0
Behind outer = All (λ r. outer ++ r.guards ≡ required_guards r.endpoint)

route-Behind :
    (outer : List Guard) (prefix : String) (rs : List Route)
    → Behind outer rs
    → Behind outer (route prefix rs)
route-Behind outer prefix [] h = tt
route-Behind outer prefix (r ∷ rs) (h, hs) = (h, route-Behind outer prefix rs hs)

auth_group-Behind :
    (rs : List Route) → Behind (auth_guard ∷ []) rs → Behind [] (group auth_guard rs)
auth_group-Behind [] h = tt
auth_group-Behind (r ∷ rs) (h, hs) = (h, auth_group-Behind rs hs)

when_present-Behind :
    (outer : List Guard) (b : Bool) (rs : List Route)
    → Behind outer rs
    → Behind outer (when_present b rs)
when_present-Behind outer true rs h = h
when_present-Behind outer false rs h = tt

joined :
    (outer : List Guard) (xs ys : List Route)
    → Behind outer xs
    → Behind outer ys
    → Behind outer (xs ++ ys)
joined outer [] ys h k = k
joined outer (x ∷ xs) ys (h, hs) k = (h, joined outer xs ys hs k)

module _ (p : Present) where
  expense_routes-Behind : Behind (auth_guard ∷ []) (route "/expenses" expense_routes)
  unfolding expense_routes required_guards
  expense_routes-Behind = (refl, (refl, (refl, (refl, (refl, tt)))))

  protected_routes-Behind : Behind (auth_guard ∷ []) (protected_routes p)
  unfolding protected_routes required_guards
  protected_routes-Behind =
      joined (auth_guard ∷ []) (when_present p.user_handler (handle get "/users/me" current_user)) _
        (when_present-Behind (auth_guard ∷ []) p.user_handler (handle get "/users/me" current_user)
          (refl, tt))
        (joined (auth_guard ∷ [])
          (when_present p.expense_handler (route "/expenses" expense_routes)) _
          (when_present-Behind (auth_guard ∷ []) p.expense_handler
            (route "/expenses" expense_routes) expense_routes-Behind)
          (when_present-Behind (auth_guard ∷ []) p.payment_handler
            (group retry_guard (handle post "/payment/retry" retry_payment)) (refl, tt)))

  api_routes-Behind : Behind [] (api_routes p)
  unfolding api_routes required_guards
  api_routes-Behind =
      joined [] health_routes _ (refl, (refl, tt))
        (joined []
          (when_present p.webhook_handler (handle post "/payment/callback" payment_callback)) _
          (when_present-Behind [] p.webhook_handler
            (handle post "/payment/callback" payment_callback) (refl, tt))
          (joined [] (when_present p.auth_handler auth_routes) _
            (when_present-Behind [] p.auth_handler auth_routes (refl, (refl, (refl, tt))))
            (joined [] (when_present p.category_handler (handle get "/categories" categories)) _
              (when_present-Behind [] p.category_handler (handle get "/categories" categories)
                (refl, tt))
              (when_present-Behind [] p.auth_handler (group auth_guard (protected_routes p))
                (auth_group-Behind (protected_routes p) protected_routes-Behind)))))

  -- Whichever handlers are present, every route that is registered is behind exactly the
  -- middleware that its handler needs: approvals, rejections and retries behind authentication
  -- and then their own permission, the other expense routes and the current user behind
  -- authentication, and the rest behind none.
  pub register_all_routes-guarded :
      All (λ r. r.guards ≡ required_guards r.endpoint) (register_all_routes p)
  unfolding register_all_routes
  register_all_routes-guarded = route-Behind [] "/api/v1" (api_routes p) api_routes-Behind

module _ {Db A : Type 0} (service : ServiceApi Db) (clock : ℕ → ℕ) (header : String)
    (next : HandlerFunc Db A) (db : Db) where
  -- The handler ran for a user whom the token names and who holds a permission, or nothing changed
  -- and the answer is 401, 403 or 500.
  abbrev pub IsAuthorized : List String → Served A × Db → Type 0
  IsAuthorized required r =
      ((c : Claims) × (u : User) × (service.validate_access_token clock
            (extract_token_from_header header)
          ≡ ok c)
        × (service.get_user_with_permissions (uid_of service c) db ≡ ok u)
        × HasCommon u.permissions required
        × (r ≡ (served (next (some u) db).0, (next (some u) db).1)))
      ⊎ ((response : Response A) × ((response.status ≡ 401)
            ⊎ (response.status ≡ 403)
            ⊎ (response.status ≡ 500))
          × (r ≡ (served response, db)))

  recovered-of :
      (m : Db → Served A × Db) (x : Served A) (s : Db)
      → m db ≡ (x, s)
      → recovery_middleware m db ≡ (recovered x, s)
  unfolding recovery_middleware
  recovered-of m x s h = ap (λ r. (recovered r.0, r.1)) h

  stopped :
      (required : List String) (m : Db → Served A × Db) (response : Response A)
      → (response.status ≡ 401) ⊎ (response.status ≡ 403) ⊎ (response.status ≡ 500)
      → recovery_middleware m db ≡ (served response, db)
      → IsAuthorized required (recovery_middleware m db)
  stopped required m response status h = inr (response, status, h)

  authorized :
      (required : List String) (guard : HandlerFunc Db A → HandlerFunc Db A)
      → ((u : User) → LetsThrough required next (some u) db (guard next (some u) db))
      → IsAuthorized required
          (recovery_middleware (auth_middleware service clock header (guard next)) db)
  unfolding write_error http_error
  authorized required guard lets =
      let m = auth_middleware service clock header (guard next) in
      elim (auth_middleware_outcome service clock header (guard next) db) [
        | inl (_, r) ↦ stopped required m _ (inl refl) (recovered-of m _ db r)
        | inr (inl (_, _, r)) ↦ stopped required m _ (inl refl) (recovered-of m _ db r)
        | inr (inr (inl (_, r))) ↦ stopped required m _ (inr (inr refl)) (recovered-of m _ db r)
        | inr (inr (inr (inl (_, _, _, _, r)))) ↦
            stopped required m _ (inl refl) (recovered-of m _ db r)
        | inr (inr (inr (inr (c, u, (v, g, r))))) ↦ elim (lets u) [
          | inl (w, same, held, ran) ↦
              let same_user : w ≡ u = cc in
              inl (
                c,
                u,
                v,
                g,
                subst (λ x. HasCommon x.permissions required) same_user held,
                recovered-of m _ _ r ∙ ap (λ q. (served q.0, q.1)) ran,
              )
          | inr (inl (absent, ran)) ↦ absurd cc
          | inr (inr (w, same, lacks, ran)) ↦
              stopped required m _ (inr (inl refl))
                (recovered-of m _ _ r ∙ ap (λ q. (served q.0, q.1)) ran)
        ]
      ]

  -- On the routes that approve and reject an expense and retry a payment, with the authentication
  -- middleware, the default permission middleware and the recovery in the router's order around
  -- any handler, and for any authentication service: the handler runs only for a user that the
  -- service loads for the claims of a token that it accepts and who holds one of the route's
  -- permissions, and then the answer and the state are the handler's for that user; otherwise the
  -- state is as it was and the answer is 401, 403 or 500.
  pub protected_routes-IsAuthorized :
      IsAuthorized ("approve_expenses" ∷ "admin" ∷ []) (
        recovery_middleware
          (auth_middleware service clock header (require_approve_expense default_checker next))
          db)
      × IsAuthorized ("reject_expenses" ∷ "admin" ∷ []) (
          recovery_middleware
            (auth_middleware service clock header (require_reject_expense default_checker next))
            db)
      × IsAuthorized ("retry_payments" ∷ "admin" ∷ []) (
          recovery_middleware
            (auth_middleware service clock header (require_retry_payment default_checker next))
            db)
  protected_routes-IsAuthorized = (
    authorized _ (require_approve_expense default_checker)
        (λ u. (middleware-LetsThrough next (some u) db "").0),
    authorized _ (require_reject_expense default_checker)
        (λ u. (middleware-LetsThrough next (some u) db "").1),
    authorized _ (require_retry_payment default_checker)
        (λ u. (middleware-LetsThrough next (some u) db "").2),
  )
