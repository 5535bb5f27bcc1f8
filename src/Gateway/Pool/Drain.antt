-- ===== src/Gateway/Pool/Drain.antt =====
-- internal/paymentgateway/client.go: the pool comes to rest, and then every job has been run.
use expense_management.Prelude.{
  ℕ, zero, suc, ◌≤◌, ◌<◌, Bool, true, false, ◌≡◌, refl, ap, ◌∙◌, inl, inr, arith, Bool-cases,
}
use expense_management.Gateway.Types.{PaymentJob}
use expense_management.Gateway.Pool.{
  Pool, WorkerAt, offering, waiting, processing, left, held, Move, Reach,
}
use expense_management.Gateway.Pool.Family.{total}
use expense_management.Gateway.Pool.Invariant.{Inv, count, one_if, running}
use expense_management.Gateway.Pool.Moves.{Move-Inv}
use expense_management.Gateway.Pool.Conserved.{Reach-Inv}
use expense_management.Gateway.Pool.Progress.{
  moves_left, Move-moves_left, Move-submitted, IsIdle, progress_at,
}

-- Any number of moves.
pub data Moves (n size : ℕ) : Pool → Pool → Type 0 where
  stay : {s : Pool} → Moves n size s s
  onward : {s t u : Pool} → Move n size s t → Moves n size t u → Moves n size s u

running_le : (p : PaymentJob → Bool) (w : WorkerAt) → running p w ≤ running (λ job. true) w
running_le p (processing job) = elim (Bool-cases (p job)) [
  | inl picked ↦ omega (arith, ap one_if picked)
  | inr other ↦ omega (arith, ap one_if other)
]
running_le p offering = omega arith
running_le p waiting = omega arith
running_le p left = omega arith

total-running_le :
    (p : PaymentJob → Bool) (n : ℕ) (w : ℕ → WorkerAt)
    → total (running p) n w ≤ total (running (λ job. true)) n w
total-running_le p zero w = omega arith
total-running_le p (suc n) w = omega (arith, total-running_le p n w, running_le p (w n))

abbrev pub Drained : ℕ → ℕ → Pool → Type 0
Drained n size s =
    (t : Pool) × Moves n size s t
    × IsIdle n t
    × ((p : PaymentJob → Bool) → count p t.processed ≡ count p s.submitted)

idle_processed :
    (n : ℕ) (s : Pool)
    → Inv n s
    → s.cancelled ≡ false
    → IsIdle n s
    → (p : PaymentJob → Bool) → count p s.processed ≡ count p s.submitted
idle_processed n s h live (q, d, z) p = omega (
  arith,
  h.conserved p,
  ap (count p) q,
  ap (λ x. count p (held x)) d,
  total-running_le p n s.workers,
  z,
  ap (count p) (h.up live).0,
)

one_more : (n size : ℕ) (s t : Pool) → Move n size s t → Drained n size t → Drained n size s
one_more n size s t m (u, ms, idle, all) =
    (u, onward m ms, idle, λ p. all p ∙ ap (count p) (Move-submitted m).0)

drain :
    (n size fuel : ℕ) (s : Pool)
    → 0 < n
    → 0 < size
    → Inv n s
    → s.cancelled ≡ false
    → moves_left n s ≤ fuel
    → Drained n size s
drain n size zero s some_worker room h live enough =
    elim (progress_at n size s s.dispatcher s.queue some_worker room h (h.up live) refl refl) [
      | inl idle ↦ (s, stay, idle, idle_processed n s h live idle)
      | inr (t, m) ↦ absurd (omega (arith, enough, Move-moves_left m))
    ]
drain n size (suc fuel) s some_worker room h live enough =
    elim (progress_at n size s s.dispatcher s.queue some_worker room h (h.up live) refl refl) [
      | inl idle ↦ (s, stay, idle, idle_processed n s h live idle)
      | inr (t, m) ↦ one_more n size s t m (
          drain n size fuel t some_worker room (Move-Inv h m) ((Move-submitted m).1 ∙ live)
            (omega (arith, enough, Move-moves_left m)))
    ]

-- With at least one worker and one place in the pool of channels, from every reachable state in
-- which no shutdown was called, the goroutines come by finitely many of their own moves to a
-- state in which the queue is empty, the dispatcher waits for a job and no worker runs one, and
-- in that state every job that was put into the queue has been processed as often as it was put
-- there.
pub pool_drains :
    (n size queue_size : ℕ) (s : Pool)
    → 0 < n
    → 0 < size
    → Reach n size queue_size s
    → s.cancelled ≡ false
    → Drained n size s
pool_drains n size queue_size s some_worker room r live =
    drain n size (moves_left n s) s some_worker room (Reach-Inv r) live (omega arith)
