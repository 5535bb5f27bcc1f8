-- ===== src/Gateway/Pool/Moves.antt =====
-- internal/paymentgateway/client.go: every move of the pool keeps the invariant.
use expense_management.Prelude.{ℕ, ◌<◌, ◌==◌, List, [], ◌∷◌, ◌++◌, ◌≡◌, ap, arith}
use expense_management.Gateway.Types.{PaymentJob}
use expense_management.Gateway.Pool.{
  Pool, offering, waiting, processing, selecting, holding, handing, held, update, Move, offer, take,
  pick, hand, finish,
}
use expense_management.Gateway.Pool.Family.{total-update}
use expense_management.Gateway.Pool.Invariant.{
  Inv, one_if, count, count-one, count-job, running, ready, handed, ne-eqb, same, by_worker,
}

module _ {n : ℕ} {s : Pool} (h : Inv n s) where
  offer-Inv :
      (i : ℕ)
      → i < n
      → s.workers i ≡ offering
      → Inv n
          (record s { worker_pool = s.worker_pool ++ i ∷ []; workers = update s.workers i waiting })
  offer-Inv i below at = record {
    conserved = λ p. omega (
      arith,
      h.conserved p,
      total-update (running p) n s.workers i waiting below,
      ap (running p) at,
    );
    at_most_once =
        by_worker _ i
          (rw (same i) (
            omega (
              arith,
              count-one i i s.worker_pool,
              h.at_most_once i,
              ap one_if (same i),
              ap ready at,
            )))
          (λ j e. rw e (omega (arith, count-one j i s.worker_pool, h.at_most_once j, ap one_if e)));
    outside = λ j out. rw (ne-eqb i j (omega (arith, below, out))) (h.outside j out);
    up = λ live.
        let (d, r, l, o) = h.up live in
        (
          d,
          r,
          by_worker _ i (rw (same i) (λ e. absurd cc)) (λ j e. rw e (l j)),
          by_worker _ i
              (rw (same i) (omega (arith, count-one i i s.worker_pool, ap one_if (same i))))
              (λ j e. rw e (omega (arith, count-one j i s.worker_pool, o j, ap one_if e))),
        );
  }

  take-Inv :
      (job : PaymentJob) (jobs : List PaymentJob)
      → s.dispatcher ≡ selecting
      → s.queue ≡ job ∷ jobs
      → Inv n (record s { queue = jobs; dispatcher = holding job })
  take-Inv job jobs d q = record {
    conserved = λ p. omega (arith, h.conserved p, ap (count p) q, ap (λ x. count p (held x)) d);
    at_most_once = λ j. omega (arith, h.at_most_once j, ap (handed j) d);
    outside = h.outside;
    up = λ live.
        let (dropped, r, l, o) = h.up live in
        (dropped, λ e. absurd cc, l, λ j. omega (arith, o j, ap (handed j) d));
  }

  pick-Inv :
      (job : PaymentJob) (i : ℕ) (rest : List ℕ)
      → s.dispatcher ≡ holding job
      → s.worker_pool ≡ i ∷ rest
      → Inv n (record s { worker_pool = rest; dispatcher = handing job i })
  pick-Inv job i rest d q = record {
    conserved = λ p. omega (arith, h.conserved p, ap (λ x. count p (held x)) d);
    at_most_once =
        λ j. omega (arith, h.at_most_once j, ap (handed j) d, ap (count (λ k. k == j)) q);
    outside = h.outside;
    up = λ live.
        let (dropped, r, l, o) = h.up live in
        (
          dropped,
          λ e. absurd cc,
          l,
          λ j. omega (arith, o j, ap (handed j) d, ap (count (λ k. k == j)) q),
        );
  }

  hand-Inv :
      (job : PaymentJob) (i : ℕ)
      → s.dispatcher ≡ handing job i
      → i < n
      → s.workers i ≡ waiting
      → Inv n (record s { dispatcher = selecting; workers = update s.workers i (processing job) })
  hand-Inv job i d below at = record {
    conserved = λ p. omega (
      arith,
      h.conserved p,
      ap (λ x. count p (held x)) d,
      total-update (running p) n s.workers i (processing job) below,
      ap (running p) at,
    );
    at_most_once =
        by_worker _ i
          (rw (same i)
            (omega (arith, h.at_most_once i, ap (handed i) d, ap one_if (same i), ap ready at)))
          (λ j e. rw e (omega (arith, h.at_most_once j, ap (handed j) d)));
    outside = λ j out. rw (ne-eqb i j (omega (arith, below, out))) (h.outside j out);
    up = λ live.
        let (dropped, r, l, o) = h.up live in
        (
          dropped,
          λ e. absurd cc,
          by_worker _ i (rw (same i) (λ e. absurd cc)) (λ j e. rw e (l j)),
          by_worker _ i (rw (same i) (omega arith))
              (λ j e. rw e (omega (arith, o j, ap (handed j) d, ap one_if e))),
        );
  }

  finish-Inv :
      (job : PaymentJob) (i : ℕ)
      → i < n
      → s.workers i ≡ processing job
      → Inv n
          (record s { workers = update s.workers i offering; processed = s.processed ++ job ∷ [] })
  finish-Inv job i below at = record {
    conserved = λ p. omega (
      arith,
      h.conserved p,
      count-job p job s.processed,
      total-update (running p) n s.workers i offering below,
      ap (running p) at,
    );
    at_most_once =
        by_worker _ i (rw (same i) (omega (arith, h.at_most_once i, ap ready at)))
          (λ j e. rw e (h.at_most_once j));
    outside = λ j out. rw (ne-eqb i j (omega (arith, below, out))) (h.outside j out);
    up = λ live.
        let (dropped, r, l, o) = h.up live in
        (
          dropped,
          r,
          by_worker _ i (rw (same i) (λ e. absurd cc)) (λ j e. rw e (l j)),
          by_worker _ i (rw (same i) (omega arith)) (λ j e. rw e (o j)),
        );
  }

module _ {n size : ℕ} where
  pub Move-Inv : {s t : Pool} → Inv n s → Move n size s t → Inv n t
  Move-Inv h (offer i below at room) = offer-Inv h i below at
  Move-Inv h (take job jobs d q) = take-Inv h job jobs d q
  Move-Inv h (pick job i rest d q) = pick-Inv h job i rest d q
  Move-Inv h (hand job i d below at) = hand-Inv h job i d below at
  Move-Inv h (finish job i below at) = finish-Inv h job i below at
