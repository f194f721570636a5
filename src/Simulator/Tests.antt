-- ===== src/Simulator/Tests.antt =====
-- Rounds of kernal/Process_scheduling/Simulate.cpp from concrete queues.
use she_x_mini_operating_sys.Base.{◌+◌, length, ℕ, ◌<◌, ◌≡◌, refl, true, false, [], ◌∷◌, arith}
use she_x_mini_operating_sys.Base.Int.{pos, negsuc}
use she_x_mini_operating_sys.Replacement.{find_page, is_same, Page, lru_policy}
use she_x_mini_operating_sys.Scheduling.{get_page, Process, use_rr}
use she_x_mini_operating_sys.Simulator.{ran, Simulator, is_sys_full}
use she_x_mini_operating_sys.Simulator.Counts.{Accounts}
use she_x_mini_operating_sys.Simulator.Running.{ending}
use she_x_mini_operating_sys.Simulator.Kept.{Ran}
use she_x_mini_operating_sys.Simulator.Rounds.{round}
use she_x_mini_operating_sys.Replacement.Copies.{copies, weight}
use she_x_mini_operating_sys.Simulator.Optimal.{optimal, optimal_lem}
use she_x_mini_operating_sys.Simulator.Whole.{simulate_loop}
use she_x_mini_operating_sys.Simulator.Ends.{Ends, simulate_loop-Ends}
use she_x_mini_operating_sys.Simulator.Laws.{round-Accounts}

abbrev page_of : ℕ → Page
page_of pid = record {
  first_use = 0;
  life_time = 3;
  value = 5;
  pid = pid;
  last_time_used = 0;
  referenced = false;
}

abbrev process : ℕ → ℕ → Process
process pid remains = record {
  pages = page_of pid ∷ [];
  pid = pid;
  priority = pos 1;
  times_executed = 0;
  submission_time = pos 0;
  remains_execution_time = pos remains;
  block_time = pos 0;
  waiting_time = negsuc 0;
  response_time = negsuc 0;
  turnaround_time = pos 0;
  first_ticket = 0;
  last_ticket = 0;
  total_executation_time = pos 3;
}

-- Process 1 is running its last unit of time, process 2 waits, and two processes may compete.
abbrev midway : Simulator
midway = record {
  incoming_queue = [];
  waiting_queue = process 2 3 ∷ [];
  ready_suspensed_queue = [];
  ready_queue = [];
  running_process = process 1 1 ∷ [];
  blocked_queue = [];
  blocked_suspensed_queue = [];
  frames = record { memory = page_of 1 ∷ []; disk = page_of 2 ∷ []; clock_p = 0 };
  max_process_multiprogramming = 2;
  elapsed_time = 2;
  quantum = pos 1;
  cpu_idle = false;
  cpu_idle_time = 0;
  count_process = 2;
  hits = 0;
  miss = 0;
  avg_waiting_time = pos 0;
  avg_response_time = pos 0;
  avg_service_time = pos 0;
  avg_turnaround_time = pos 0;
}

-- The test for a full system is an equation: with more processes than the limit it fails.
overfull : is_sys_full (record midway { max_process_multiprogramming = 0 }) ≡ false
unfolding is_sys_full
overfull = refl

exactly_full : is_sys_full (record midway { max_process_multiprogramming = 1 }) ≡ true
unfolding is_sys_full
exactly_full = refl

small : midway.max_process_multiprogramming < 2147483648
small = omega arith

round-Accounts_example :
    Ran (λ t. Accounts midway t (ending midway)) (round lru_policy use_rr midway)
round-Accounts_example = round-Accounts lru_policy use_rr midway small

-- Process 2 asks for its page, which is on the disk.
abbrev asking : Simulator
asking = record midway { running_process = process 2 3 ∷ [] }

asked :
    (0 < (get_page (process 2 3)).0.life_time)
    × (find_page (get_page (process 2 3)).0 asking.frames.disk < length asking.frames.disk)
unfolding get_page find_page
asked = (omega arith, omega arith)

optimal_lem_example :
    (t : Simulator) × (q : Page) × (optimal (process 2 3 ∷ []) asking ≡ ran t)
    × (is_same (get_page (process 2 3)).0 q ≡ true)
    × ((page : Page)
        → copies page t.frames.memory + copies page t.frames.disk
          ≡ copies page asking.frames.memory + copies page asking.frames.disk + weight page q)
optimal_lem_example = optimal_lem (process 2 3) [] asking asked.0 (omega arith) asked.1

simulate_loop-Ends_example : Ends midway (simulate_loop lru_policy use_rr 12 midway)
simulate_loop-Ends_example = simulate_loop-Ends lru_policy use_rr 12 midway small
