-- ===== src/Gateway/Pool/Progress.antt =====
-- internal/paymentgateway/client.go: until `Shutdown`, the goroutines of the pool never wait for each
-- other forever, and run every job of the queue.
use expense_management.Prelude.{
  ℕ, ◌+◌, ◌*◌, ◌<◌, ◌==◌, List, [], ◌∷◌, true, ◌≡◌, refl, ap, ◌≢◌, Bool-cases, ltb, ltb→lt, ◌⊎◌,
  inl, inr, length, arith,
}
use expense_management.Gateway.Types.{PaymentJob}
use expense_management.Gateway.Pool.{
  Pool, WorkerAt, offering, waiting, processing, left, DispatcherAt, selecting, holding, handing,
  returned, Move, offer, take, pick, hand, finish,
}
use expense_management.Gateway.Pool.Family.{total, total-update, total-cases}
use expense_management.Gateway.Pool.Invariant.{
  Inv, IsUp, count, one_if, running, ready, handed, same,
}

-- How many moves are left at most, by where each goroutine is.
worker_moves : WorkerAt → ℕ
worker_moves offering = 1
worker_moves waiting = 0
worker_moves (processing job) = 2
worker_moves left = 0

dispatcher_moves : DispatcherAt → ℕ
dispatcher_moves selecting = 0
dispatcher_moves (holding job) = 4
dispatcher_moves (handing job i) = 3
dispatcher_moves returned = 0

unfoldable pub moves_left : ℕ → Pool → ℕ
unfolding worker_moves dispatcher_moves
moves_left n s = 5 * length s.queue + dispatcher_moves s.dispatcher + total worker_moves n s.workers

module _ {n size : ℕ} where
  -- Every move leaves fewer.
  pub Move-moves_left : {s t : Pool} → Move n size s t → moves_left n t < moves_left n s
  unfolding moves_left
  Move-moves_left {s} (offer i below at room) =
      omega (arith, total-update worker_moves n s.workers i waiting below, ap worker_moves at)
  Move-moves_left {s} (take job jobs d q) = omega (arith, ap dispatcher_moves d, ap length q)
  Move-moves_left (pick job i rest d q) = omega (arith, ap dispatcher_moves d)
  Move-moves_left {s} (hand job i d below at) = omega (
    arith,
    ap dispatcher_moves d,
    total-update worker_moves n s.workers i (processing job) below,
    ap worker_moves at,
  )
  Move-moves_left {s} (finish job i below at) =
      omega (arith, total-update worker_moves n s.workers i offering below, ap worker_moves at)

  pub Move-submitted :
      {s t : Pool} → Move n size s t → (t.submitted ≡ s.submitted) × (t.cancelled ≡ s.cancelled)
  Move-submitted (offer i below at room) = (refl, refl)
  Move-submitted (take job jobs d q) = (refl, refl)
  Move-submitted (pick job i rest d q) = (refl, refl)
  Move-submitted (hand job i d below at) = (refl, refl)
  Move-submitted (finish job i below at) = (refl, refl)

-- Nothing is left to do.
abbrev pub IsIdle : ℕ → Pool → Type 0
IsIdle n s =
    (s.queue ≡ []) × (s.dispatcher ≡ selecting) × (total (running (λ job. true)) n s.workers ≡ 0)

abbrev pub CanMove : ℕ → ℕ → Pool → Type 0
CanMove n size s = (t : Pool) × Move n size s t

module _ (n size : ℕ) where
  running-CanMove :
      (s : Pool) (i : ℕ) (w : WorkerAt)
      → i < n
      → s.workers i ≡ w
      → 0 < running (λ job. true) w
      → CanMove n size s
  running-CanMove s i (processing job) below at r = (_, finish job i below at)
  running-CanMove s i offering below at r = absurd (omega (arith, r))
  running-CanMove s i waiting below at r = absurd (omega (arith, r))
  running-CanMove s i left below at r = absurd (omega (arith, r))

  -- A dispatcher with a job and no channel: the first worker will offer its own.
  holding-CanMove :
      (s : Pool) (job : PaymentJob) (w : WorkerAt) (offered : List ℕ)
      → 0 < n
      → 0 < size
      → IsUp s
      → s.dispatcher ≡ holding job
      → s.workers 0 ≡ w
      → s.worker_pool ≡ offered
      → CanMove n size s
  holding-CanMove s job w (i ∷ rest) some_worker room up d at q = (_, pick job i rest d q)
  holding-CanMove s job offering [] some_worker room up d at q =
      (_, offer 0 some_worker at (omega (arith, room, ap length q)))
  holding-CanMove s job (processing other) [] some_worker room up d at q =
      (_, finish other 0 some_worker at)
  holding-CanMove s job left [] some_worker room (dropped, r, l, o) d at q = absurd (l 0 at)
  holding-CanMove s job waiting [] some_worker room (dropped, r, l, o) d at q =
      absurd (omega (arith, o 0, ap (handed 0) d, ap ready at, ap (count (λ k. k == 0)) q))

  not_ready :
      (s : Pool) (job : PaymentJob) (i : ℕ) (w : WorkerAt)
      → Inv n s
      → s.dispatcher ≡ handing job i
      → s.workers i ≡ w
      → ready w ≢ 0
  not_ready s job i w h d at z =
      omega (arith, h.at_most_once i, ap (handed i) d, ap ready at, z, ap one_if (same i))

  handing-CanMove :
      (s : Pool) (job : PaymentJob) (i : ℕ) (w : WorkerAt)
      → Inv n s
      → IsUp s
      → s.dispatcher ≡ handing job i
      → s.workers i ≡ w
      → CanMove n size s
  handing-CanMove s job i waiting h up d at = elim (Bool-cases (ltb i n)) [
    | inl below ↦ (_, hand job i d (ltb→lt i n below) at)
    | inr outside ↦ let at_rest = h.outside i (ground arith) in absurd cc
  ]
  handing-CanMove s job i left h (dropped, r, l, o) d at = absurd (l i at)
  handing-CanMove s job i offering h up d at = absurd (not_ready s job i offering h d at refl)
  handing-CanMove s job i (processing other) h up d at =
      absurd (not_ready s job i (processing other) h d at refl)

  -- Some goroutine can go on, or all work is done.
  pub progress_at :
      (s : Pool) (d : DispatcherAt) (q : List PaymentJob)
      → 0 < n
      → 0 < size
      → Inv n s
      → IsUp s
      → s.dispatcher ≡ d
      → s.queue ≡ q
      → IsIdle n s ⊎ CanMove n size s
  progress_at s (holding job) q some_worker room h up d e =
      inr (holding-CanMove s job (s.workers 0) s.worker_pool some_worker room up d refl refl)
  progress_at s (handing job i) q some_worker room h up d e =
      inr (handing-CanMove s job i (s.workers i) h up d refl)
  progress_at s returned q some_worker room h (dropped, r, l, o) d e = absurd (r d)
  progress_at s selecting (job ∷ jobs) some_worker room h up d e = inr (_, take job jobs d e)
  progress_at s selecting [] some_worker room h up d e =
      elim (total-cases (running (λ job. true)) n s.workers) [
        | inl none_running ↦ inl (e, d, none_running)
        | inr (i, below, runs) ↦ inr (running-CanMove s i (s.workers i) below refl runs)
      ]
