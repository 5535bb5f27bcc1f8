-- ===== src/Gateway/Pool/Invariant.antt =====
-- internal/paymentgateway/client.go: what holds of the pool whatever the interleaving: where the jobs
-- are, and which channels are in the pool.
use expense_management.Prelude.{
  ℕ, ◌+◌, ◌≤◌, ◌<◌, ◌==◌, List, [], ◌∷◌, ◌++◌, Bool, true, false, ◌≡◌, ◌≢◌, arith, Bool-cases, inl,
  inr, subst, ==_iff,
}
use expense_management.Gateway.Types.{PaymentJob}
use expense_management.Gateway.Pool.{
  Pool, WorkerAt, offering, waiting, processing, left, DispatcherAt, handing, returned, held,
}
use expense_management.Gateway.Pool.Family.{total}

abbrev pub one_if : Bool → ℕ
one_if true = 1
one_if false = 0

abbrev pub count : {A : Type 0} → (A → Bool) → List A → ℕ
count p [] = 0
count p (x ∷ xs) = one_if (p x) + count p xs

pub count-append :
    {A : Type 0} (p : A → Bool) (xs ys : List A) → count p (xs ++ ys) ≡ count p xs + count p ys
count-append p [] ys = omega arith
count-append p (x ∷ xs) ys = omega (arith, count-append p xs ys)

-- A worker's job.
abbrev pub running : (PaymentJob → Bool) → WorkerAt → ℕ
running p (processing job) = one_if (p job)
running p _ = 0

-- A worker whose channel may be in the pool or with the dispatcher.
abbrev pub ready : WorkerAt → ℕ
ready waiting = 1
ready left = 1
ready _ = 0

abbrev pub handed : ℕ → DispatcherAt → ℕ
handed i (handing job j) = one_if (j == i)
handed i _ = 0

abbrev pub offers : ℕ → Pool → ℕ
offers i s = count (λ j. j == i) s.worker_pool + handed i s.dispatcher

-- Every job that was sent is in one place, as often as it was sent.
abbrev pub accounted : ℕ → (PaymentJob → Bool) → Pool → ℕ
accounted n p s =
    count p s.queue
    + count p (held s.dispatcher)
    + total (running p) n s.workers
    + count p s.processed
    + count p s.dropped

abbrev pub IsUp : Pool → Type 0
IsUp s =
    (s.dropped ≡ [])
    × (s.dispatcher ≢ returned)
    × ((i : ℕ) → s.workers i ≢ left)
    × ((i : ℕ) → ready (s.workers i) ≤ offers i s)

pub record Inv (n : ℕ) (s : Pool) : Type 0 where
  pub conserved : (p : PaymentJob → Bool) → count p s.submitted ≡ accounted n p s
  pub at_most_once : (i : ℕ) → offers i s ≤ ready (s.workers i)
  pub outside : (i : ℕ) → n ≤ i → s.workers i ≡ offering
  pub up : s.cancelled ≡ false → IsUp s

pub count-one :
    (j i : ℕ) (xs : List ℕ)
    → count (λ k. k == j) (xs ++ i ∷ []) ≡ count (λ k. k == j) xs + one_if (i == j)
count-one j i xs = omega (arith, count-append (λ k. k == j) xs (i ∷ []))

pub count-job :
    (p : PaymentJob → Bool) (job : PaymentJob) (xs : List PaymentJob)
    → count p (xs ++ job ∷ []) ≡ count p xs + one_if (p job)
count-job p job xs = omega (arith, count-append p xs (job ∷ []))

pub ne-eqb : (i j : ℕ) → i < j → (i == j) ≡ false
ne-eqb i j h = ground arith

pub same : (i : ℕ) → (i == i) ≡ true
same i = ground arith

-- Worker `i`, and every other.
pub by_worker : (P : ℕ → Type 0) (i : ℕ) → P i → ((j : ℕ) → (i == j) ≡ false → P j) → (j : ℕ) → P j
by_worker P i at others j = elim (Bool-cases (i == j)) [
  | inl e ↦ subst P ((==_iff i j).0 e) at
  | inr e ↦ others j e
]
