-- ===== src/Simulator/Whole.antt =====
-- A whole simulation of kernal/Process_scheduling/Simulate.cpp: the constructor, `Clear`, and the loop of
-- `StartSimulation`, with a number of rounds as fuel.
use she_x_mini_operating_sys.Base.{ℕ, zero, suc, Bool, true, ◌&&◌, List, [], ◌∷◌, if◌then◌else◌}
use she_x_mini_operating_sys.Base.Int.{pos}
use she_x_mini_operating_sys.Replacement.{Policy}
use she_x_mini_operating_sys.Scheduling.{Process, Algorithm}
use she_x_mini_operating_sys.Simulator.{
  Simulator, Round, exited, undefined, ran, is_empty_queue, start_process,
}
use she_x_mini_operating_sys.Simulator.Rounds.{round}

-- The constructor; the hand of the clock is a static variable of the page replacement.
abbrev pub new_simulator : ℕ → Simulator
new_simulator max_multiprogramming = record {
  incoming_queue = [];
  waiting_queue = [];
  ready_suspensed_queue = [];
  ready_queue = [];
  running_process = [];
  blocked_queue = [];
  blocked_suspensed_queue = [];
  frames = record { memory = []; disk = []; clock_p = 0 };
  max_process_multiprogramming = max_multiprogramming;
  elapsed_time = 0;
  quantum = pos 0;
  cpu_idle = true;
  cpu_idle_time = 0;
  count_process = 0;
  hits = 0;
  miss = 0;
  avg_waiting_time = pos 0;
  avg_response_time = pos 0;
  avg_service_time = pos 0;
  avg_turnaround_time = pos 0;
}

-- `Clear` sets neither the pages nor the counts of hits and misses.
abbrev pub clear_simulator : ℕ → Simulator → Simulator
clear_simulator max_multiprogramming s = record s {
  cpu_idle = true;
  quantum = pos 0;
  max_process_multiprogramming = max_multiprogramming;
  count_process = 0;
  elapsed_time = 0;
  avg_waiting_time = pos 0;
  avg_response_time = pos 0;
  avg_turnaround_time = pos 0;
  avg_service_time = pos 0;
  cpu_idle_time = 0;
  incoming_queue = [];
  waiting_queue = [];
  ready_queue = [];
  ready_suspensed_queue = [];
  running_process = [];
  blocked_queue = [];
  blocked_suspensed_queue = [];
}

abbrev pub empty_queue : Simulator → Bool
empty_queue s =
    is_empty_queue s.incoming_queue
    && (is_empty_queue s.waiting_queue
        && (is_empty_queue s.ready_suspensed_queue
            && (is_empty_queue s.ready_queue
                && (is_empty_queue s.blocked_queue
                    && (is_empty_queue s.blocked_suspensed_queue && s.cpu_idle)))))

-- The processes that the simulation is given.
unfoldable pub start_all : List Process → Simulator → Simulator
start_all [] s = s
start_all (p ∷ ps) s = start_all ps (start_process p s)

-- The loop has ended, the fuel has, or a round exits or reads out of a vector.
pub data Simulation : Type 0 where
  finished : Simulator → Simulation
  still_going : Simulator → Simulation
  failed : Round → Simulation

abbrev pub after_round : (Simulator → Simulation) → Round → Simulation
after_round next exited = failed exited
after_round next undefined = failed undefined
after_round next (ran s) = next s

abbrev pub if_fuel_left : Simulator → Simulation
if_fuel_left s = if empty_queue s then finished s else still_going s

unfoldable pub simulate_loop : Policy → Algorithm → ℕ → Simulator → Simulation
simulate_loop policy algorithm zero s = if_fuel_left s
simulate_loop policy algorithm (suc fuel) s =
    let rest = after_round (simulate_loop policy algorithm fuel) (round policy algorithm s) in
    if empty_queue s then finished s else rest

unfoldable pub start_simulation : Policy → Algorithm → ℕ → List Process → Simulator → Simulation
unfolding simulate_loop start_all
start_simulation policy algorithm fuel processes s =
    simulate_loop policy algorithm fuel (start_all processes s)
