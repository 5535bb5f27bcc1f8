-- ===== src/Gateway/Pool/Conserved.antt =====
-- internal/paymentgateway/client.go: whatever the interleaving, no job is run twice,
-- and none is dropped before a shutdown.
use expense_management.Prelude.{
  ℕ, zero, suc, ◌≤◌, ◌<◌, [], ◌∷◌, ◌++◌, Bool, true, ◌≡◌, refl, ap, arith, Bool-cases, inl, inr,
  ◌⊎◌,
}
use expense_management.Gateway.Types.{PaymentJob}
use expense_management.Gateway.Pool.{
  Pool, offering, waiting, left, returned, held, update, Step, move, submit, shutdown,
  worker_returns, dispatcher_returns, start_worker_pool, Reach, started, later,
}
use expense_management.Gateway.Pool.Family.{total, total-update}
use expense_management.Gateway.Pool.Invariant.{
  Inv, count, count-append, count-job, running, ready, accounted, ne-eqb, same, by_worker,
}
use expense_management.Gateway.Pool.Moves.{Move-Inv}

total-offering : (p : PaymentJob → Bool) (n : ℕ) → total (running p) n (λ i. offering) ≡ 0
total-offering p zero = refl
total-offering p (suc n) = omega (arith, total-offering p n)

module _ {n : ℕ} {s : Pool} (h : Inv n s) where
  submit-Inv :
      (job : PaymentJob)
      → Inv n (record s { queue = s.queue ++ job ∷ []; submitted = s.submitted ++ job ∷ [] })
  submit-Inv job = record {
    conserved =
        λ p. omega (arith, h.conserved p, count-job p job s.queue, count-job p job s.submitted);
    at_most_once = h.at_most_once;
    outside = h.outside;
    up = h.up;
  }

  shutdown-Inv : Inv n (record s { cancelled = true })
  shutdown-Inv = record {
    conserved = h.conserved;
    at_most_once = h.at_most_once;
    outside = h.outside;
    up = λ live. absurd cc;
  }

  worker_returns-Inv :
      (i : ℕ)
      → i < n
      → s.cancelled ≡ true
      → s.workers i ≡ waiting
      → Inv n (record s { workers = update s.workers i left })
  worker_returns-Inv i below over at = record {
    conserved = λ p. omega (
      arith,
      h.conserved p,
      total-update (running p) n s.workers i left below,
      ap (running p) at,
    );
    at_most_once =
        by_worker _ i (rw (same i) (omega (arith, h.at_most_once i, ap ready at)))
          (λ j e. rw e (h.at_most_once j));
    outside = λ j out. rw (ne-eqb i j (omega (arith, below, out))) (h.outside j out);
    up = λ live. absurd cc;
  }

  dispatcher_returns-Inv :
      s.cancelled ≡ true
      → Inv n (record s { dispatcher = returned; dropped = s.dropped ++ held s.dispatcher })
  dispatcher_returns-Inv over = record {
    conserved = λ p. omega (arith, h.conserved p, count-append p s.dropped (held s.dispatcher));
    at_most_once = λ j. omega (arith, h.at_most_once j);
    outside = h.outside;
    up = λ live. absurd cc;
  }

start-Inv : {n : ℕ} → Inv n start_worker_pool
start-Inv = record {
  conserved = λ p. omega (arith, total-offering p _);
  at_most_once = λ i. omega arith;
  outside = λ i out. refl;
  up = λ live. (refl, λ e. absurd cc, λ i e. absurd cc, λ i. omega arith);
}

module _ {n size : ℕ} where
  module _ {queue_size : ℕ} where
    pub Step-Inv : {s t : Pool} → Inv n s → Step n size queue_size s t → Inv n t
    Step-Inv h (move m) = Move-Inv h m
    Step-Inv h (submit job room) = submit-Inv h job
    Step-Inv h shutdown = shutdown-Inv h
    Step-Inv h (worker_returns i below over at) = worker_returns-Inv h i below over at
    Step-Inv h (dispatcher_returns over there) = dispatcher_returns-Inv h over

    -- Every state that can be reached keeps the invariant.
    pub Reach-Inv : {s : Pool} → Reach n size queue_size s → Inv n s
    Reach-Inv started = start-Inv
    Reach-Inv (later r step) = Step-Inv (Reach-Inv r) step

    -- In every state that the client's goroutines can reach by any interleaving, with any number
    -- of workers, any sizes and a shutdown at any time, every job that was put into the queue is,
    -- as often as it was put there, in the queue, with the dispatcher, with a worker, processed,
    -- or dropped; a job is never processed more often than it was put there; and nothing is
    -- dropped before a shutdown.
    pub jobs_conserved :
        {s : Pool}
        → Reach n size queue_size s
        → (p : PaymentJob → Bool)
        → (count p s.submitted ≡ accounted n p s)
          × (count p s.processed ≤ count p s.submitted)
          × ((s.cancelled ≡ true) ⊎ (s.dropped ≡ []))
    jobs_conserved {s} r p =
        let h = Reach-Inv r in
        (
          h.conserved p,
          omega (arith, h.conserved p),
          elim (Bool-cases s.cancelled) [ inl over ↦ inl over | inr live ↦ inr (h.up live).0 ],
        )
