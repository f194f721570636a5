-- ===== src/Scheduling/Tests.antt =====
-- The scheduling algorithms of kernal/include/ProcessSchedulingAlgorithms.h at concrete queues.
use she_x_mini_operating_sys.Base.{
  ℕ, ◌≡◌, refl, none, some, List, [], ◌∷◌, ◌++◌, map, ◌+◌, ◌%◌, arith,
}
use she_x_mini_operating_sys.Base.Int.{pos, negsuc}
use she_x_mini_operating_sys.Scheduling.{
  Process, Queues, Scheduled, use_rr, use_priority, use_feedback, schedule, rr, priority_scheduling,
  priority_loop, feedback, feedback_loop, set_response_time, increment_times_executed, dispatch,
}
use she_x_mini_operating_sys.Scheduling.Lottery.{
  lottery, number_tickets, winner_loop, shares, Holder, lottery-Holder,
}
use she_x_mini_operating_sys.Scheduling.Laws.{Dispatches, schedule-Dispatches}

abbrev process : ℕ → ℕ → Process
process pid priority = record {
  pages = [];
  pid = pid;
  priority = pos priority;
  times_executed = 0;
  submission_time = pos 2;
  remains_execution_time = pos 5;
  block_time = pos 0;
  waiting_time = negsuc 0;
  response_time = negsuc 0;
  turnaround_time = pos 0;
  first_ticket = 0;
  last_ticket = 0;
  total_executation_time = pos 5;
}

abbrev three : Queues
three = record {
  ready = process 1 1 ∷ process 2 0 ∷ process 3 4 ∷ [];
  running = [];
  quantum = pos 0;
}

pids : Scheduled → List ℕ
pids none = []
pids (some (done, q)) = map (λ (p : Process). p.pid) (q.running ++ q.ready)

runs_first : pids (schedule use_rr (pos 9) three) ≡ 1 ∷ 2 ∷ 3 ∷ []
unfolding pids schedule rr set_response_time
runs_first = refl

runs_highest : pids (schedule use_priority (pos 9) three) ≡ 3 ∷ 1 ∷ 2 ∷ []
unfolding pids schedule priority_scheduling priority_loop set_response_time
runs_highest = refl

runs_lowest : pids (schedule use_feedback (pos 9) three) ≡ 2 ∷ 1 ∷ 3 ∷ []
unfolding pids schedule feedback feedback_loop set_response_time increment_times_executed
runs_lowest = refl

schedule-Dispatches_example :
    Dispatches use_feedback (pos 9) three (schedule use_feedback (pos 9) three)
schedule-Dispatches_example = schedule-Dispatches use_feedback (pos 9) three refl

-- 20 tickets of the first, then 10 and 50.
winner_of_25 : winner_loop 25 (number_tickets 0 three.ready) 0 ≡ 1
unfolding winner_loop number_tickets
winner_of_25 = refl

lottery-Holder_example :
    (i : ℕ) × Holder three.ready (1000 % (shares three.ready + 1)) i
    × (lottery 1000 (pos 9) three
        ≡ dispatch
            (pos 9)
            i
            (record { ready = number_tickets 0 three.ready; running = []; quantum = pos 2 }))
lottery-Holder_example =
    lottery-Holder 1000 (pos 9) (process 1 1) (process 2 0 ∷ process 3 4 ∷ []) [] (pos 0) refl
      (omega arith)
