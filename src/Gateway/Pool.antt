-- ===== src/Gateway/Pool.antt =====
-- internal/paymentgateway/client.go: the goroutines of the client, the dispatcher and its workers,
-- as steps that interleave in any order.
--
-- A step is one communication on a channel, or what a goroutine does between two of them. A worker is
-- named by its number, so that the pool of channels is the list of the numbers of the workers that
-- offered theirs. `submitted`, `processed` and `dropped` are records of what was sent to the queue,
-- of what `processFunc` was run on, and of what a goroutine held when it returned.
pub mod Family
pub mod Invariant
pub mod Moves
pub mod Conserved
pub mod Progress
pub mod Drain
pub mod Room
pub mod Shutdown
use expense_management.Prelude.{
  ℕ, ◌<◌, List, [], ◌∷◌, ◌++◌, Bool, true, false, ◌≡◌, ◌≢◌, length, ◌==◌, if◌then◌else◌,
}
use expense_management.Gateway.Types.{PaymentJob}

-- Where a worker of `Worker.Start` is: before the send of its channel to the pool, in the select, in
-- `processFunc`, or returned.
pub data WorkerAt : Type 0 where
  offering waiting : WorkerAt
  processing : PaymentJob → WorkerAt
  left : WorkerAt

-- Where `dispatch` is: in the outer select, in the second with a job, in the third with a job and a
-- worker's channel, or returned.
pub data DispatcherAt : Type 0 where
  selecting : DispatcherAt
  holding : PaymentJob → DispatcherAt
  handing : PaymentJob → ℕ → DispatcherAt
  returned : DispatcherAt

pub record Pool : Type 0 where
  pub queue : List PaymentJob
  pub worker_pool : List ℕ
  pub dispatcher : DispatcherAt
  pub workers : ℕ → WorkerAt
  pub cancelled : Bool
  pub submitted : List PaymentJob
  pub processed : List PaymentJob
  pub dropped : List PaymentJob

abbrev pub update : {A : Type 0} → (ℕ → A) → ℕ → A → ℕ → A
update f i a j = if i == j then a else f j

abbrev pub held : DispatcherAt → List PaymentJob
held selecting = []
held (holding job) = job ∷ []
held (handing job i) = job ∷ []
held returned = []

-- `startWorkerPool`: every worker is about to offer its channel.
abbrev pub start_worker_pool : Pool
start_worker_pool = record {
  queue = [];
  worker_pool = [];
  dispatcher = selecting;
  workers = λ i. offering;
  cancelled = false;
  submitted = [];
  processed = [];
  dropped = [];
}

-- What `max_workers` workers and a pool of channels with `size` places do by themselves.
pub data Move (max_workers size : ℕ) (s : Pool) : Pool → Type 0 where
  -- `w.WorkerPool <- w.JobChannel`
  offer :
      (i : ℕ)
      → i < max_workers
      → s.workers i ≡ offering
      → length s.worker_pool < size
      → Move max_workers size s
          (record s { worker_pool = s.worker_pool ++ i ∷ []; workers = update s.workers i waiting })
  -- `job := <-c.jobQueue`
  take :
      (job : PaymentJob) (jobs : List PaymentJob)
      → s.dispatcher ≡ selecting
      → s.queue ≡ job ∷ jobs
      → Move max_workers size s (record s { queue = jobs; dispatcher = holding job })
  -- `jobChannel := <-c.workerPool`
  pick :
      (job : PaymentJob) (i : ℕ) (rest : List ℕ)
      → s.dispatcher ≡ holding job
      → s.worker_pool ≡ i ∷ rest
      → Move max_workers size s (record s { worker_pool = rest; dispatcher = handing job i })
  -- `jobChannel <- job` meets `job := <-w.JobChannel`
  hand :
      (job : PaymentJob) (i : ℕ)
      → s.dispatcher ≡ handing job i
      → i < max_workers
      → s.workers i ≡ waiting
      → Move max_workers size s
          (record s { dispatcher = selecting; workers = update s.workers i (processing job) })
  -- `processFunc(job)` returns
  finish :
      (job : PaymentJob) (i : ℕ)
      → i < max_workers
      → s.workers i ≡ processing job
      → Move max_workers size s
          (record s { workers = update s.workers i offering; processed = s.processed ++ job ∷ [] })

pub data Step (max_workers size queue_size : ℕ) (s : Pool) : Pool → Type 0 where
  move : {t : Pool} → Move max_workers size s t → Step max_workers size queue_size s t
  -- `ProcessPayment` finds room in the queue
  submit :
      (job : PaymentJob)
      → length s.queue < queue_size
      → Step max_workers size queue_size s
          (record s { queue = s.queue ++ job ∷ []; submitted = s.submitted ++ job ∷ [] })
  -- `Shutdown` calls `c.cancel()`
  shutdown : Step max_workers size queue_size s (record s { cancelled = true })
  -- `<-ctx.Done()` of a worker
  worker_returns :
      (i : ℕ)
      → i < max_workers
      → s.cancelled ≡ true
      → s.workers i ≡ waiting
      → Step max_workers size queue_size s (record s { workers = update s.workers i left })
  -- `<-ctx.Done()` of the dispatcher, in each of its selects
  dispatcher_returns :
      s.cancelled ≡ true
      → s.dispatcher ≢ returned
      → Step max_workers size queue_size s
          (record s { dispatcher = returned; dropped = s.dropped ++ held s.dispatcher })

pub data Reach (max_workers size queue_size : ℕ) : Pool → Type 0 where
  started : Reach max_workers size queue_size start_worker_pool
  later :
      {s t : Pool}
      → Reach max_workers size queue_size s
      → Step max_workers size queue_size s t
      → Reach max_workers size queue_size t
