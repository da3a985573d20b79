-- ===== src/ThreadPool.antt =====
-- src/processor/thread_pool.hpp and .cpp: the pool of workers with its queue. A step is what one
-- thread does while it holds the queue's mutex, or the end of a task; any order of steps may happen.
-- A waiting worker is one that is about to take the mutex or sleeps on the condition: the wake-ups
-- are left out, as the wait tests its condition anew in any case.
use zero_trust_public.Base.{
  ℕ, zero, suc, ◌≡◌, Bool, true, false, not, ◌||◌, ◌&&◌, List, [], ◌∷◌, ◌++◌, Option, none, some,
  get_elem?, set, is_empty, if◌then◌else◌,
}
pub mod Laws

-- Where a worker stands in `worker_loop`.
pub data Worker (A : Type 0) : Type 0 where
  waiting : Worker A
  running : A → Worker A
  exited : Worker A

-- `tasks` has the front first. `A` is the type of the tasks.
pub record ThreadPool (A : Type 0) : Type 0 where
  pub workers : List (Worker A)
  pub tasks : List A
  pub stop : Bool

-- What a worker with the mutex does.
pub data Turn (A : Type 0) : Type 0 where
  sleep : Turn A
  leave : Turn A
  work : A → List A → Turn A

module _ {A : Type 0} where
  unfoldable pub start_workers : ℕ → List (Worker A)
  start_workers zero = []
  start_workers (suc n) = waiting ∷ start_workers n

  -- The constructor.
  unfoldable pub start : ℕ → ThreadPool A
  start n = record { workers = start_workers n; tasks = []; stop = false }

  -- The `stop = true` of the destructor; it then joins, that is, waits until all workers have exited.
  unfoldable pub shut_down : ThreadPool A → ThreadPool A
  shut_down p = record p { stop = true }

  unfoldable pub enqueue : A → ThreadPool A → ThreadPool A
  enqueue task p = record p { tasks = p.tasks ++ task ∷ [] }

  -- The front of the queue; it is not empty where this is called.
  pop_front : List A → Turn A
  pop_front [] = sleep
  pop_front (t ∷ ts) = work t ts

  -- The locked part of `worker_loop`: the wait, the early return, and the front of the queue.
  unfoldable pub turn : ThreadPool A → Turn A
  unfolding pop_front
  turn p =
      if not (p.stop || not (is_empty p.tasks))
      then sleep
      else if p.stop && is_empty p.tasks
      then leave
      else pop_front p.tasks

  -- The pool behind the turn of worker `i`.
  unfoldable pub after_turn : ℕ → ThreadPool A → Turn A → ThreadPool A
  after_turn i p sleep = p
  after_turn i p leave = record p { workers = set p.workers i exited }
  after_turn i p (work t ts) = record p { workers = set p.workers i (running t); tasks = ts }

  -- `task()` returns, and the loop goes round.
  unfoldable pub finish : ℕ → ThreadPool A → ThreadPool A
  finish i p = record p { workers = set p.workers i waiting }

  -- The task of a turn.
  unfoldable pub taken : Turn A → List A
  taken (work t ts) = t ∷ []
  taken _ = []

-- A pool with the tasks that were enqueued and those that were started, in order.
pub record History (A : Type 0) : Type 0 where
  pub pool : ThreadPool A
  pub enqueued : List A
  pub started : List A

-- The owner of the pool enqueues until it destroys it, and a task that runs may enqueue too.
pub data MayEnqueue {A : Type 0} (p : ThreadPool A) : Type 0 where
  owner : p.stop ≡ false → MayEnqueue p
  task : (i : ℕ) (t : A) → get_elem? p.workers i ≡ some (running t) → MayEnqueue p

pub data Step {A : Type 0} : History A → History A → Type 0 where
  enqueues :
      (h : History A) (t : A)
      → MayEnqueue h.pool
      → Step h
          (record { pool = enqueue t h.pool; enqueued = h.enqueued ++ t ∷ []; started = h.started })
  shuts_down : (h : History A) → Step h (record h { pool = shut_down h.pool })
  turns :
      (h : History A) (i : ℕ)
      → get_elem? h.pool.workers i ≡ some waiting
      → Step h (record {
        pool = after_turn i h.pool (turn h.pool);
        enqueued = h.enqueued;
        started = h.started ++ taken (turn h.pool);
      })
  finishes :
      (h : History A) (i : ℕ) (t : A)
      → get_elem? h.pool.workers i ≡ some (running t)
      → Step h (record h { pool = finish i h.pool })

abbrev pub begin : {A : Type 0} → ℕ → History A
begin n = record { pool = start n; enqueued = []; started = [] }

pub data Reach {A : Type 0} (n : ℕ) : History A → Type 0 where
  here : Reach n (begin n)
  next : {g h : History A} → Reach n g → Step g h → Reach n h
