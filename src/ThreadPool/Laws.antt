-- ===== src/ThreadPool/Laws.antt =====
-- The pool runs the tasks in the order of the queue, and none is left behind when it is joined.
use zero_trust_public.Base.{
  ℕ, zero, suc, ◌<◌, ◌≡◌, ◌≢◌, refl, sym, ap, ◌∙◌, Bool, true, false, List, [], ◌∷◌, ◌++◌,
  append-nil, append_assoc, some, get_elem?, set, is_empty, length, All, arith, subst,
}
use mathlib.Core.Option.{some-injective}
use zero_trust_public.ThreadPool.{
  Worker, waiting, running, exited, ThreadPool, Turn, sleep, leave, work, start_workers, start,
  shut_down, enqueue, turn, after_turn, finish, taken, History, MayEnqueue, owner, task, Step,
  enqueues, shuts_down, turns, finishes, begin, Reach, here, next,
}

-- A worker exits only after `stop` is set.
abbrev StopsFirst : {A : Type 0} → Bool → List (Worker A) → Type 0
StopsFirst s ws = All (λ w. w ≡ exited → s ≡ true) ws

start_StopsFirst : (A : Type 0) (n : ℕ) → StopsFirst {A = A} false (start_workers n)
unfolding start_workers
start_StopsFirst A zero = tt
start_StopsFirst A (suc n) = ((λ e. cc), start_StopsFirst A n)

length-start_workers : (A : Type 0) (n : ℕ) → length (start_workers {A = A} n) ≡ n
unfolding start_workers
length-start_workers A zero = refl
length-start_workers A (suc n) = ap suc (length-start_workers A n)

module _ {A : Type 0} where
  All-set :
      (P : Worker A → Type 0) (ws : List (Worker A)) (i : ℕ) (w : Worker A)
      → P w
      → All P ws
      → All P (set ws i w)
  All-set P [] i w h k = tt
  All-set P (v ∷ ws) zero w h k = (h, k.1)
  All-set P (v ∷ ws) (suc i) w h k = (k.0, All-set P ws i w h k.1)

  All-get_elem :
      (P : Worker A → Type 0) (ws : List (Worker A)) (i : ℕ) {w : Worker A}
      → All P ws
      → get_elem? ws i ≡ some w
      → P w
  All-get_elem P [] i k e = cc
  All-get_elem P (v ∷ ws) zero k e = subst P (some-injective _ _ e) k.0
  All-get_elem P (v ∷ ws) (suc i) k e = All-get_elem P ws i k.1 e

  get_elem-set :
      (ws : List (Worker A)) (i : ℕ) (w : Worker A) {v : Worker A}
      → get_elem? ws i ≡ some v
      → get_elem? (set ws i w) i ≡ some w
  get_elem-set [] i w e = cc
  get_elem-set (u ∷ ws) zero w e = refl
  get_elem-set (u ∷ ws) (suc i) w e = get_elem-set ws i w e

  length-set : (ws : List (Worker A)) (i : ℕ) (w : Worker A) → length (set ws i w) ≡ length ws
  length-set [] i w = refl
  length-set (u ∷ ws) zero w = refl
  length-set (u ∷ ws) (suc i) w = ap suc (length-set ws i w)

  abbrev AllExited : List (Worker A) → Type 0
  AllExited ws = All (λ w. w ≡ exited) ws

  -- The invariant of the pool with its history.
  record IsSound (n : ℕ) (h : History A) : Type 0 where
    in_order : h.enqueued ≡ h.started ++ h.pool.tasks
    stops_first : StopsFirst h.pool.stop h.pool.workers
    drained : AllExited h.pool.workers → h.pool.tasks ≡ []
    kept : length h.pool.workers ≡ n

  stopped :
      (ws : List (Worker A)) (s : Bool) → 0 < length ws → StopsFirst s ws → AllExited ws → s ≡ true
  stopped [] s l h e = absurd (omega arith)
  stopped (w ∷ ws) s l h e = h.0 e.0

  -- A worker that has not exited stands in the way.
  not-AllExited :
      (ws : List (Worker A)) (i : ℕ) (w : Worker A)
      → get_elem? ws i ≡ some w
      → w ≢ exited
      → AllExited ws
      → ⊥
  not-AllExited ws i w g h e = h (All-get_elem (λ v. v ≡ exited) ws i e g)

  MayEnqueue-live :
      (n : ℕ) (h : History A)
      → 0 < n
      → IsSound n h
      → MayEnqueue h.pool
      → AllExited h.pool.workers
      → ⊥
  MayEnqueue-live n h l s (owner e) x =
      let q = stopped h.pool.workers h.pool.stop (omega (arith, s.kept)) s.stops_first x in cc
  MayEnqueue-live n h l s (task i t g) x = not-AllExited h.pool.workers i (running t) g (λ e. cc) x

  begin-IsSound : (n : ℕ) → IsSound n (begin n)
  unfolding start
  begin-IsSound n = record {
    in_order = refl;
    stops_first = start_StopsFirst A n;
    drained = λ x. refl;
    kept = length-start_workers A n;
  }

  -- A turn that is described by its outcome: what is asked of stop and the queue.
  abbrev TurnOf : ThreadPool A → Turn A → Type 0
  TurnOf p sleep = Unit
  TurnOf p leave = (p.stop ≡ true) × (p.tasks ≡ [])
  TurnOf p (work t ts) = p.tasks ≡ t ∷ ts

  turn-TurnOf : (p : ThreadPool A) → TurnOf p (turn p)
  unfolding turn is_empty
  turn-TurnOf p = by_cases p.stop p.tasks refl refl
    where
      by_cases : (s : Bool) (ts : List A) → p.stop ≡ s → p.tasks ≡ ts → TurnOf p (turn p)
      by_cases true [] e q = rw (e, q) (refl, refl)
      by_cases false [] e q = rw (e, q) tt
      by_cases true (t ∷ ts) e q = rw (e, q) refl
      by_cases false (t ∷ ts) e q = rw (e, q) refl

  all_stop : (s : Bool) (ws : List (Worker A)) → s ≡ true → StopsFirst s ws
  all_stop s [] e = tt
  all_stop s (w ∷ ws) e = ((λ x. e), all_stop s ws e)

  turn-IsSound :
      (n : ℕ) (h : History A) (i : ℕ) (o : Turn A)
      → get_elem? h.pool.workers i ≡ some waiting
      → TurnOf h.pool o
      → IsSound n h
      → IsSound n (record {
        pool = after_turn i h.pool o;
        enqueued = h.enqueued;
        started = h.started ++ taken o;
      })
  unfolding after_turn taken
  turn-IsSound n h i sleep g d s = record {
    in_order = rw (append-nil h.started) s.in_order;
    stops_first = s.stops_first;
    drained = s.drained;
    kept = s.kept;
  }
  turn-IsSound n h i leave g d s = record {
    in_order = rw (append-nil h.started) s.in_order;
    stops_first = all_stop h.pool.stop (set h.pool.workers i exited) d.0;
    drained = λ x. d.1;
    kept = length-set h.pool.workers i exited ∙ s.kept;
  }
  turn-IsSound n h i (work t ts) g d s = record {
    in_order = s.in_order ∙ ap (λ q. h.started ++ q) d ∙ sym (append_assoc h.started (t ∷ []) ts);
    stops_first = All-set _ h.pool.workers i (running t) (λ e. cc) s.stops_first;
    drained = λ x. absurd (
        not-AllExited (set h.pool.workers i (running t)) i (running t)
          (get_elem-set h.pool.workers i (running t) g) (λ e. cc) x);
    kept = length-set h.pool.workers i (running t) ∙ s.kept;
  }

  Step-IsSound : {g h : History A} (n : ℕ) → 0 < n → Step g h → IsSound n g → IsSound n h
  unfolding enqueue shut_down finish
  Step-IsSound n l (enqueues h t may) s = record {
    in_order = ap (λ q. q ++ t ∷ []) s.in_order ∙ append_assoc h.started h.pool.tasks (t ∷ []);
    stops_first = s.stops_first;
    drained = λ x. absurd (MayEnqueue-live n h l s may x);
    kept = s.kept;
  }
  Step-IsSound n l (shuts_down h) s = record {
    in_order = s.in_order;
    stops_first = all_stop true h.pool.workers refl;
    drained = s.drained;
    kept = s.kept;
  }
  Step-IsSound n l (turns h i g) s = turn-IsSound n h i (turn h.pool) g (turn-TurnOf h.pool) s
  Step-IsSound n l (finishes h i t g) s = record {
    in_order = s.in_order;
    stops_first = All-set _ h.pool.workers i waiting (λ e. cc) s.stops_first;
    drained = λ x. absurd (
        not-AllExited (set h.pool.workers i waiting) i waiting
          (get_elem-set h.pool.workers i waiting g) (λ e. cc) x);
    kept = length-set h.pool.workers i waiting ∙ s.kept;
  }

  Reach-IsSound : (n : ℕ) {h : History A} → 0 < n → Reach n h → IsSound n h
  Reach-IsSound n l here = begin-IsSound n
  Reach-IsSound n l (next r s) = Step-IsSound n l s (Reach-IsSound n l r)

  -- In a pool with a worker or more, whatever the threads do in whatever order, the tasks that were
  -- started and then those in the queue are the tasks that were enqueued, in their order: none is
  -- lost, started twice or overtaken.
  pub enqueued_in_order :
      (n : ℕ) {h : History A} → 0 < n → Reach n h → h.enqueued ≡ h.started ++ h.pool.tasks
  enqueued_in_order n l r = (Reach-IsSound n l r).in_order

  -- When every worker of a pool with a worker or more has exited, that is, when the destructor
  -- returns, all the tasks that were ever enqueued have been started, also those of tasks that ran
  -- during the shutdown.
  pub started_all :
      (n : ℕ) {h : History A}
      → 0 < n
      → Reach n h
      → AllExited h.pool.workers
      → h.started ≡ h.enqueued
  started_all n {h} l r x =
      let s = Reach-IsSound n l r in
      sym (s.in_order ∙ ap (λ q. h.started ++ q) (s.drained x) ∙ append-nil h.started)
