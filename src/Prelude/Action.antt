-- ===== src/Prelude/Action.antt =====
-- Go functions that change state and may fail. What was written before an error stays written, so
-- the state comes back beside the error too.
use mathlib.Core.Path.{◌≡◌, refl, ap, ◌∙◌}
use mathlib.Core.Logic.{◌⊎◌, inl, inr}
use mathlib.Core.Bool.{Bool, true, false}

-- The pair `(value, error)` of Go, where exactly one of the two is set.
pub data Result {ℓ κ} (E : Type ℓ) (A : Type κ) : Type (ℓ ⊔ κ) where
  ok : A → Result E A
  err : E → Result E A

-- The next step of a function that changes no state.
infixl 5 ◌>=>◌
abbrev pub ◌>=>◌ {ℓ κ ι} :
    {E : Type ℓ} {A : Type κ} {B : Type ι} → Result E A → (A → Result E B) → Result E B
ok a >=> f = f a
err e >=> f = err e

-- What a value says of the steps before it.
pub steps_ok :
    {E A B : Type 0} (r : Result E A) (f : A → Result E B) (b : B)
    → (r >=> f) ≡ ok b
    → (a : A) × (r ≡ ok a) × (f a ≡ ok b)
steps_ok (ok a) f b h = (a, refl, h)
steps_ok (err e) f b h = absurd cc

abbrev pub Exec : Type 0 → Type 0 → Type 0 → Type 0
Exec S E A = S → Result E A × S

module _ {S E A : Type 0} where
  abbrev pub pure : A → Exec S E A
  pure a s = (ok a, s)

  abbrev pub fail : E → Exec S E A
  fail e s = (err e, s)

  -- `if err != nil { return f(err) }`
  abbrev pub map_err : (E → E) → Exec S E A → Exec S E A
  map_err f m s = let (r, s') = m s in (elim r [ ok a ↦ ok a | err e ↦ err (f e) ], s')

  -- `if err != nil { log }`: the error is dropped.
  abbrev pub ignore : Exec S E A → Exec S E (Unit {0})
  ignore m s = let (r, s') = m s in (ok tt, s')

infixl 5 ◌>>=◌ ◌>>◌
abbrev pub ◌>>=◌ : {S E A B : Type 0} → Exec S E A → (A → Exec S E B) → Exec S E B
◌>>=◌ m f s = let (r, s') = m s in elim r [ ok a ↦ f a s' | err e ↦ (err e, s') ]

abbrev pub ◌>>◌ : {S E A B : Type 0} → Exec S E A → Exec S E B → Exec S E B
m >> k = m >>= λ _. k

-- `if !b { return e }`
abbrev pub check : {S E : Type 0} → Bool → E → Exec S E (Unit {0})
check true e s = (ok tt, s)
check false e s = (err e, s)

-- To split on a result and keep the equation.
pub Result-cases :
    {E A : Type 0} (r : Result E A) → ((a : A) × (r ≡ ok a)) ⊎ ((e : E) × (r ≡ err e))
Result-cases (ok a) = inl (a, refl)
Result-cases (err e) = inr (e, refl)

-- A bind, by the result of its first part.
module _ {S E A B : Type 0} (m : Exec S E A) (k : A → Exec S E B) (s : S) where
  abbrev after : Result E A → Result E B × S
  after (ok a) = k a (m s).1
  after (err e) = (err e, (m s).1)

  bind-after :
      (r : Result E A)
      → (elim r as (λ x. Result E B × S) [ ok a ↦ k a (m s).1 | err e ↦ (err e, (m s).1) ])
        ≡ after r
  bind-after (ok a) = refl
  bind-after (err e) = refl

  pub bind-ok : {a : A} → (m s).0 ≡ ok a → (m >>= k) s ≡ k a (m s).1
  bind-ok h = bind-after (m s).0 ∙ ap after h

  pub bind-err : {e : E} → (m s).0 ≡ err e → (m >>= k) s ≡ (err e, (m s).1)
  bind-err h = bind-after (m s).0 ∙ ap after h

module _ {S E A : Type 0} (f : E → E) (m : Exec S E A) (s : S) where
  abbrev map_error : Result E A → Result E A
  map_error (ok a) = ok a
  map_error (err e) = err (f e)

  map_error-elim :
      (r : Result E A)
      → (elim r as (λ x. Result E A) [ ok a ↦ ok a | err e ↦ err (f e) ]) ≡ map_error r
  map_error-elim (ok a) = refl
  map_error-elim (err e) = refl

  pub map_err-ok : {a : A} → (m s).0 ≡ ok a → (map_err f m s).0 ≡ ok a
  map_err-ok h = map_error-elim (m s).0 ∙ ap map_error h

  pub map_err-err : {e : E} → (m s).0 ≡ err e → (map_err f m s).0 ≡ err (f e)
  map_err-err h = map_error-elim (m s).0 ∙ ap map_error h

-- An error at the start of a bind is all that comes of it, under its new text.
pub bind-map_err :
    {S E A B : Type 0} (f : E → E) (m : Exec S E A) (k : A → Exec S E B) (s t : S) (e : E)
    → m s ≡ (err e, t)
    → (map_err f m >>= k) s ≡ (err (f e), t)
bind-map_err f m k s t e h = ap (λ r. (map_err f (λ s'. r) >>= k) s) h
