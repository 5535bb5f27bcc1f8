-- ===== src/Gateway/Pool/Shutdown.antt =====
-- internal/paymentgateway/client.go: `Shutdown` comes to its end, when the pool of channels has a
-- place for every worker.
use expense_management.Prelude.{
  ℕ, zero, suc, ◌+◌, ◌≤◌, ◌<◌, ◌++◌, ◌*◌, true, ◌≡◌, ◌≢◌, refl, ap, sym, subst, ◌∙◌, ◌⊎◌, inl, inr,
  length, arith, Bool-cases, ltb, ltb→lt,
}
use expense_management.Gateway.Pool.{
  Pool, WorkerAt, offering, waiting, processing, left, DispatcherAt, selecting, holding, handing,
  returned, update, Step, move, worker_returns, dispatcher_returns, held, Move, offer, take, pick,
  hand, finish, Reach,
}
use expense_management.Gateway.Pool.Family.{total, total-update, total-cases}
use expense_management.Gateway.Pool.Invariant.{Inv}
use expense_management.Gateway.Pool.Conserved.{Step-Inv, Reach-Inv}
use expense_management.Gateway.Pool.Progress.{Move-submitted}
use expense_management.Gateway.Pool.Room.{room_for}

-- What happens after the shutdown: every step but a new job.
pub data Closing (n size : ℕ) (s : Pool) : Pool → Type 0 where
  closing_move : {t : Pool} → Move n size s t → Closing n size s t
  closing_worker :
      (i : ℕ)
      → i < n
      → s.workers i ≡ waiting
      → Closing n size s (record s { workers = update s.workers i left })
  closing_dispatcher :
      s.dispatcher ≢ returned
      → Closing n size s
          (record s { dispatcher = returned; dropped = s.dropped ++ held s.dispatcher })

pub data Closings (n size : ℕ) : Pool → Pool → Type 0 where
  closed : {s : Pool} → Closings n size s s
  go_on : {s t u : Pool} → Closing n size s t → Closings n size t u → Closings n size s u

-- `wg.Wait` returns: every goroutine has.
abbrev pub IsClosed : ℕ → Pool → Type 0
IsClosed n s = (s.dispatcher ≡ returned) × ((i : ℕ) → i < n → s.workers i ≡ left)

worker_steps : WorkerAt → ℕ
worker_steps offering = 2
worker_steps waiting = 1
worker_steps (processing job) = 3
worker_steps left = 0

dispatcher_steps : DispatcherAt → ℕ
dispatcher_steps selecting = 1
dispatcher_steps (holding job) = 5
dispatcher_steps (handing job i) = 4
dispatcher_steps returned = 0

steps_left : ℕ → Pool → ℕ
unfolding worker_steps dispatcher_steps
steps_left n s = 6 * length s.queue + dispatcher_steps s.dispatcher + total worker_steps n s.workers

dispatcher_steps-positive : (d : DispatcherAt) → d ≢ returned → 1 ≤ dispatcher_steps d
unfolding dispatcher_steps
dispatcher_steps-positive selecting h = omega arith
dispatcher_steps-positive (holding job) h = omega arith
dispatcher_steps-positive (handing job i) h = omega arith
dispatcher_steps-positive returned h = absurd (h refl)

module _ {n size : ℕ} where
  -- However the goroutines interleave, fewer steps are left after each.
  Closing-steps_left : {s t : Pool} → Closing n size s t → steps_left n t < steps_left n s
  unfolding steps_left
  Closing-steps_left {s} (closing_move (offer i below at room)) =
      omega (arith, total-update worker_steps n s.workers i waiting below, ap worker_steps at)
  Closing-steps_left (closing_move (take job jobs d q)) =
      omega (arith, ap dispatcher_steps d, ap length q)
  Closing-steps_left (closing_move (pick job i rest d q)) = omega (arith, ap dispatcher_steps d)
  Closing-steps_left {s} (closing_move (hand job i d below at)) = omega (
    arith,
    ap dispatcher_steps d,
    total-update worker_steps n s.workers i (processing job) below,
    ap worker_steps at,
  )
  Closing-steps_left {s} (closing_move (finish job i below at)) =
      omega (arith, total-update worker_steps n s.workers i offering below, ap worker_steps at)
  Closing-steps_left {s} (closing_worker i below at) =
      omega (arith, total-update worker_steps n s.workers i left below, ap worker_steps at)
  Closing-steps_left {s} (closing_dispatcher there) =
      omega (arith, dispatcher_steps-positive s.dispatcher there)

  Closing-Step : {s t : Pool} → s.cancelled ≡ true → Closing n size s t → Step n size 0 s t
  Closing-Step over (closing_move m) = move m
  Closing-Step over (closing_worker i below at) = worker_returns i below over at
  Closing-Step over (closing_dispatcher there) = dispatcher_returns over there

  Closing-cancelled : {s t : Pool} → Closing n size s t → t.cancelled ≡ s.cancelled
  Closing-cancelled (closing_move m) = (Move-submitted m).1
  Closing-cancelled (closing_worker i below at) = refl
  Closing-cancelled (closing_dispatcher there) = refl

no_steps-left : (a : WorkerAt) → worker_steps a ≡ 0 → a ≡ left
unfolding worker_steps
no_steps-left left z = refl
no_steps-left offering z = absurd (omega (arith, z))
no_steps-left waiting z = absurd (omega (arith, z))
no_steps-left (processing job) z = absurd (omega (arith, z))

all_left : (n : ℕ) (w : ℕ → WorkerAt) → total worker_steps n w ≡ 0 → (i : ℕ) → i < n → w i ≡ left
all_left zero w z i below = absurd (omega (arith, below))
all_left (suc n) w z i below = elim (Bool-cases (ltb i n)) [
  | inl before ↦ all_left n w (omega (arith, z)) i (ltb→lt i n before)
  | inr last ↦
      let at_end : i ≡ n = ground arith in
      subst (λ j. w j ≡ left) (sym at_end) (no_steps-left (w n) (omega (arith, z)))
]

module _ (n size : ℕ) where
  abbrev CanClose : Pool → Type 0
  CanClose s = (t : Pool) × Closing n size s t

  worker-CanClose :
      (s : Pool) (i : ℕ) (a : WorkerAt)
      → n ≤ size
      → Inv n s
      → i < n
      → s.workers i ≡ a
      → 0 < worker_steps a
      → CanClose s
  unfolding worker_steps
  worker-CanClose s i offering places h below at busy =
      (_, closing_move (offer i below at (room_for n size s i places h below at)))
  worker-CanClose s i waiting places h below at busy = (_, closing_worker i below at)
  worker-CanClose s i (processing job) places h below at busy =
      (_, closing_move (finish job i below at))
  worker-CanClose s i left places h below at busy = absurd (omega (arith, busy))

  closing_progress :
      (s : Pool) (d : DispatcherAt)
      → n ≤ size
      → Inv n s
      → s.dispatcher ≡ d
      → IsClosed n s ⊎ CanClose s
  closing_progress s returned places h at = elim (total-cases worker_steps n s.workers) [
    | inl none_busy ↦ inl (at, all_left n s.workers none_busy)
    | inr (i, below, busy) ↦ inr (worker-CanClose s i (s.workers i) places h below refl busy)
  ]
  closing_progress s selecting places h at = inr (_, closing_dispatcher (λ e. cc))
  closing_progress s (holding job) places h at = inr (_, closing_dispatcher (λ e. cc))
  closing_progress s (handing job i) places h at = inr (_, closing_dispatcher (λ e. cc))

  abbrev pub Closes : Pool → Type 0
  Closes s = (t : Pool) × Closings n size s t × IsClosed n t

  prepend : (s t : Pool) → Closing n size s t → Closes t → Closes s
  prepend s t c (u, cs, shut) = (u, go_on c cs, shut)

  close :
      (fuel : ℕ) (s : Pool)
      → n ≤ size
      → Inv n s
      → s.cancelled ≡ true
      → steps_left n s ≤ fuel
      → Closes s
  close zero s places h over enough = elim (closing_progress s s.dispatcher places h refl) [
    | inl shut ↦ (s, closed, shut)
    | inr (t, c) ↦ absurd (omega (arith, enough, Closing-steps_left c))
  ]
  close (suc fuel) s places h over enough = elim (closing_progress s s.dispatcher places h refl) [
    | inl shut ↦ (s, closed, shut)
    | inr (t, c) ↦ prepend s t c (
        close fuel t places (Step-Inv h (Closing-Step over c)) (Closing-cancelled c ∙ over)
          (omega (arith, enough, Closing-steps_left c)))
  ]

  -- With at least as many places in the pool of channels as workers, from every reachable state
  -- after a shutdown, the goroutines come by finitely many steps, without a new job, to a state
  -- in which the dispatcher and every worker have returned, so that Shutdown does too.
  pub shutdown-Closes :
      (queue_size : ℕ) (s : Pool)
      → n ≤ size
      → Reach n size queue_size s
      → s.cancelled ≡ true
      → Closes s
  shutdown-Closes queue_size s places r over =
      close (steps_left n s) s places (Reach-Inv r) over (omega arith)
