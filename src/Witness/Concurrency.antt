-- ===== src/Witness/Concurrency.antt =====
-- The theorems on threads at concrete inputs. For the pool: a task is enqueued, the pool is shut down, the one
-- worker runs the task, and exits.
use zero_trust_public.Base.{none, ℕ, ◌≡◌, refl, true, List, [], ◌∷◌, ◌++◌, is_empty, arith}
use zero_trust_public.Reporter.{CliReporter}
use zero_trust_public.ThreadPool.{
  Worker, waiting, running, exited, start_workers, start, shut_down, enqueue, turn, after_turn,
  finish, taken, History, owner, enqueues, shuts_down, turns, finishes, begin, Reach, here, next,
}
use zero_trust_public.ThreadPool.Laws.{enqueued_in_order, started_all}

abbrev history : List (Worker ℕ) → List ℕ → List ℕ → History ℕ
history workers tasks started = record {
  pool = record { workers = workers; tasks = tasks; stop = true };
  enqueued = 7 ∷ [];
  started = started;
}

queued : Reach 1 (history (waiting ∷ []) (7 ∷ []) [])
unfolding start start_workers enqueue shut_down
queued = next (next here (enqueues (begin 1) 7 (owner refl))) (shuts_down _)

busy : Reach 1 (history (running 7 ∷ []) [] (7 ∷ []))
unfolding turn after_turn taken is_empty
busy = next queued (turns (history (waiting ∷ []) (7 ∷ []) []) 0 refl)

idle : Reach 1 (history (waiting ∷ []) [] (7 ∷ []))
unfolding finish
idle = next busy (finishes (history (running 7 ∷ []) [] (7 ∷ [])) 0 7 refl)

joined : Reach 1 (history (exited ∷ []) [] (7 ∷ []))
unfolding turn after_turn taken is_empty
joined = next idle (turns (history (waiting ∷ []) [] (7 ∷ [])) 0 refl)

enqueued_in_order_example :
    (history (waiting ∷ []) (7 ∷ []) []).enqueued
    ≡ (history (waiting ∷ []) (7 ∷ []) []).started ++ 7 ∷ []
enqueued_in_order_example =
    enqueued_in_order 1 {h = history (waiting ∷ []) (7 ∷ []) []} (omega arith) queued

started_all_example :
    (history (exited ∷ []) [] (7 ∷ [])).started ≡ (history (exited ∷ []) [] (7 ∷ [])).enqueued
started_all_example =
    started_all 1 {h = history (exited ∷ []) [] (7 ∷ [])} (omega arith) joined (refl, tt)

abbrev a_reporter : CliReporter
a_reporter = record { stage_name = []; total = 4; completed = 0; last_percent = none }
