-- ===== src/Gateway/Pool/Room.antt =====
-- internal/paymentgateway/client.go: with a place for every worker, the pool of channels has one for
-- each worker that still offers its channel.
use expense_management.Prelude.{
  ℕ, zero, suc, ◌+◌, ◌≤◌, ◌<◌, ◌==◌, List, [], ◌∷◌, ◌≡◌, ap, inl, inr, length, All, arith,
  Bool-cases, ==_iff, ltb, ltb→lt,
}
use expense_management.Gateway.Pool.{Pool, WorkerAt, offering, waiting, processing, left, update}
use expense_management.Gateway.Pool.Family.{total, total-update}
use expense_management.Gateway.Pool.Invariant.{Inv, count, one_if, ready, same}

-- How often each of the first numbers is in a list, together.
abbrev occurrences : ℕ → List ℕ → ℕ
occurrences n xs = total (λ i. count (λ j. j == i) xs) n (λ i. i)

total-append :
    (f g : ℕ → ℕ) (n : ℕ)
    → total (λ i. f i + g i) n (λ i. i) ≡ total f n (λ i. i) + total g n (λ i. i)
total-append f g zero = omega arith
total-append f g (suc n) = omega (arith, total-append f g n)

one_occurrence : (x n : ℕ) → x < n → 1 ≤ total (λ i. one_if (x == i)) n (λ i. i)
one_occurrence x zero h = absurd (omega (arith, h))
one_occurrence x (suc n) h = elim (Bool-cases (ltb x n)) [
  | inl below ↦ omega (arith, one_occurrence x n (ltb→lt x n below))
  | inr last ↦ let at_end : x ≡ n = ground arith in omega (arith, ap one_if ((==_iff x n).1 at_end))
]

length_le : (n : ℕ) (xs : List ℕ) → All (λ x. x < n) xs → length xs ≤ occurrences n xs
length_le n [] h = omega arith
length_le n (x ∷ xs) (h, hs) = omega (
  arith,
  length_le n xs hs,
  one_occurrence x n h,
  total-append (λ i. one_if (x == i)) (λ i. count (λ j. j == i) xs) n,
)

total_le :
    (f : ℕ → ℕ) (g : WorkerAt → ℕ) (w : ℕ → WorkerAt) (n : ℕ)
    → ((i : ℕ) → f i ≤ g (w i))
    → total f n (λ i. i) ≤ total g n w
total_le f g w zero h = omega arith
total_le f g w (suc n) h = omega (arith, total_le f g w n h, h n)

ready_le_one : (w : WorkerAt) → ready w ≤ 1
ready_le_one offering = omega arith
ready_le_one waiting = omega arith
ready_le_one (processing job) = omega arith
ready_le_one left = omega arith

total-ready_le : (w : ℕ → WorkerAt) (n : ℕ) → total ready n w ≤ n
total-ready_le w zero = omega arith
total-ready_le w (suc n) = omega (arith, total-ready_le w n, ready_le_one (w n))

-- One worker that is not ready leaves a place.
total-ready_lt : (w : ℕ → WorkerAt) (n i : ℕ) → i < n → ready (w i) ≡ 0 → total ready n w < n
total-ready_lt w n i below z =
    omega (arith, total-update ready n w i waiting below, total-ready_le (update w i waiting) n, z)

below_n :
    (n : ℕ) (xs : List ℕ) → ((i : ℕ) → n ≤ i → count (λ j. j == i) xs ≡ 0) → All (λ x. x < n) xs
below_n n [] h = tt
below_n n (x ∷ xs) h = (
  elim (Bool-cases (ltb x n)) [
    | inl below ↦ ltb→lt x n below
    | inr outside ↦
        let far : n ≤ x = ground arith in absurd (omega (arith, h x far, ap one_if (same x)))
  ],
  below_n n xs (λ i far. omega (arith, h i far)),
)

-- A worker that has still to offer its channel finds a place.
pub room_for :
    (n size : ℕ) (s : Pool) (i : ℕ)
    → n ≤ size
    → Inv n s
    → i < n
    → s.workers i ≡ offering
    → length s.worker_pool < size
room_for n size s i places h below at = omega (
  arith,
  places,
  length_le n s.worker_pool (
      below_n n s.worker_pool
        (λ j far. omega (arith, h.at_most_once j, ap ready (h.outside j far)))),
  total_le (λ j. count (λ k. k == j) s.worker_pool) ready s.workers n
      (λ j. omega (arith, h.at_most_once j)),
  total-ready_lt s.workers n i below (ap ready at),
)
