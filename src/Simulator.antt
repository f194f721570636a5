-- ===== src/Simulator.antt =====
-- kernal/Process_scheduling/Simulate.cpp: the queues of the simulator and one round of its loop.
pub mod Counts
pub mod Checks
pub mod Running
pub mod Rounds
pub mod Kept
pub mod Parts
pub mod Laws
pub mod Whole
pub mod Ends
pub mod Optimal
mod Tests
use she_x_mini_operating_sys.Base.{
  ℕ, zero, suc, ◌+◌, ◌-◌, ◌%◌, ◌^◌, Bool, true, false, not, ◌&&◌, Option, none, some, List, [], ◌∷◌,
  ◌++◌, ltb, ◌==◌, if◌then◌else◌, length, get_elem?, set, erase,
}
use she_x_mini_operating_sys.Base.Int.{ℤ, pos, ◌+ℤ◌, ◌-ℤ◌, ltb_ℤ, eqb_ℤ}
use she_x_mini_operating_sys.Replacement.{
  Page, Pages, Outcome, Policy, find_page, replace, set_last_time_used, set_reference, blank,
}
use she_x_mini_operating_sys.Scheduling.{
  Process, Algorithm, Queues, schedule, fcfs, get_page, set_turnaround_time, set_waiting_time,
  decrement_execution_time, decrement_block_time, decrement_page_life_time,
}

pub record Simulator : Type 0 where
  pub incoming_queue : List Process
  pub waiting_queue : List Process
  pub ready_suspensed_queue : List Process
  pub ready_queue : List Process
  pub running_process : List Process
  pub blocked_queue : List Process
  pub blocked_suspensed_queue : List Process
  pub frames : Pages
  pub max_process_multiprogramming : ℕ
  pub elapsed_time : ℕ
  pub quantum : ℤ
  pub cpu_idle : Bool
  pub cpu_idle_time : ℕ
  pub count_process : ℕ
  pub hits : ℕ
  pub miss : ℕ
  pub avg_waiting_time : ℤ
  pub avg_response_time : ℤ
  pub avg_service_time : ℤ
  pub avg_turnaround_time : ℤ

abbrev pub active : Simulator → ℕ
active s = length s.running_process + length s.ready_queue + length s.blocked_queue

-- The difference is unsigned, of 64 bits, so `<= 0` holds of 0 alone.
pub is_sys_full : Simulator → Bool
is_sys_full s = (s.max_process_multiprogramming + (2 ^ 64 - active s % 2 ^ 64)) % 2 ^ 64 == 0

abbrev pub push_pages : List Page → Pages → Pages
push_pages pages frames = record frames { disk = frames.disk ++ pages }

abbrev pub is_empty_queue : List Process → Bool
is_empty_queue [] = true
is_empty_queue (p ∷ ps) = false

pub start_process : Process → Simulator → Simulator
start_process p s =
    let count = suc s.count_process in
    if eqb_ℤ p.submission_time (pos 0)
    then (if is_sys_full s
        then record s {
          waiting_queue = s.waiting_queue ++ p ∷ [];
          frames = push_pages p.pages s.frames;
          count_process = count;
        }
        else record s {
          ready_queue = s.ready_queue ++ p ∷ [];
          frames = push_pages p.pages s.frames;
          count_process = count;
        })
    else record s { incoming_queue = s.incoming_queue ++ p ∷ []; count_process = count }

pub terminate_process : Process → Simulator → Simulator
terminate_process p s = record s {
  avg_waiting_time = s.avg_waiting_time +ℤ p.waiting_time;
  avg_response_time = s.avg_response_time +ℤ p.response_time;
  avg_service_time =
      s.avg_service_time +ℤ (pos s.elapsed_time -ℤ p.submission_time -ℤ p.waiting_time);
  avg_turnaround_time = s.avg_turnaround_time +ℤ p.turnaround_time;
}

-- The body of the loop of `CheckIncomingQueue`, on the process at index `i`.
abbrev pub incoming_step : ℕ → Simulator → Option Process → Simulator
incoming_step i s none = s
incoming_step i s (some p) =
    if ltb_ℤ (pos 0) (p.submission_time -ℤ pos s.elapsed_time) then s else record s {
      frames = push_pages p.pages s.frames;
      waiting_queue = s.waiting_queue ++ p ∷ [];
      incoming_queue = erase s.incoming_queue i;
    }

pub incoming_loop : ℕ → Simulator → Simulator
incoming_loop zero s = s
incoming_loop (suc i) s = incoming_loop i (incoming_step i s (get_elem? s.incoming_queue i))

pub check_incoming_queue : Simulator → Simulator
check_incoming_queue s = incoming_loop (length s.incoming_queue) s

-- The bodies of the two loops of `CheckBlockedQueue`.
abbrev pub blocked_step : ℕ → Simulator → Option Process → Simulator
blocked_step i s none = s
blocked_step i s (some p) =
    let p' = decrement_block_time p in
    if not (ltb_ℤ (pos 0) p'.block_time) && is_empty_queue s.waiting_queue
    then record s {
      ready_queue = s.ready_queue ++ p' ∷ [];
      blocked_queue = erase s.blocked_queue i;
    }
    else record s { blocked_queue = set s.blocked_queue i p' }

pub blocked_loop : ℕ → Simulator → Simulator
blocked_loop zero s = s
blocked_loop (suc i) s = blocked_loop i (blocked_step i s (get_elem? s.blocked_queue i))

abbrev pub suspensed_step : ℕ → Simulator → Option Process → Simulator
suspensed_step i s none = s
suspensed_step i s (some p) =
    let p' = decrement_block_time p in
    if ltb_ℤ (pos 0) p'.block_time
    then record s { blocked_suspensed_queue = set s.blocked_suspensed_queue i p' }
    else record s {
      ready_suspensed_queue = s.ready_suspensed_queue ++ p' ∷ [];
      blocked_suspensed_queue = erase s.blocked_suspensed_queue i;
    }

pub suspensed_loop : ℕ → Simulator → Simulator
suspensed_loop zero s = s
suspensed_loop (suc i) s =
    suspensed_loop i (suspensed_step i s (get_elem? s.blocked_suspensed_queue i))

pub check_blocked_queue : Simulator → Simulator
check_blocked_queue s =
    let s' = blocked_loop (length s.blocked_queue) s in
    suspensed_loop (length s'.blocked_suspensed_queue) s'

-- The first argument is the queue of the processes that are ready and suspended.
pub ready_suspensed_loop : List Process → Simulator → Simulator
ready_suspensed_loop [] s = s
ready_suspensed_loop (p ∷ ps) s =
    let (done, left, ready) = fcfs (pos s.elapsed_time) (p ∷ ps) s.ready_queue in
    let rest =
      ready_suspensed_loop ps (record s { ready_suspensed_queue = left; ready_queue = ready }) in
    if is_empty_queue s.waiting_queue && not (is_sys_full s) then rest else s

pub check_ready_suspensed_queue : Simulator → Simulator
check_ready_suspensed_queue s = ready_suspensed_loop s.ready_suspensed_queue s

-- The pages that are left are in their order, though the loop erases from the back.
pub remove_pages : ℕ → List Page → List Page
remove_pages pid [] = []
remove_pages pid (p ∷ ps) =
    let rest = remove_pages pid ps in if p.pid == pid then rest else p ∷ rest

abbrev pub without_pages : ℕ → Pages → Pages
without_pages pid frames = record frames { memory = remove_pages pid frames.memory }

-- `p` is the running process after it was counted down; `rest` what stands behind it.
abbrev pub running_step : Process → List Process → Simulator → Simulator
running_step p rest s =
    if ltb_ℤ p.remains_execution_time (pos 1)
    then (if ltb_ℤ (pos 0) p.block_time
        then (let left = record s {
          running_process = rest;
          frames = without_pages p.pid s.frames;
        } in
            if not (is_empty_queue s.waiting_queue) && is_sys_full s
            then record left { blocked_suspensed_queue = s.blocked_suspensed_queue ++ p ∷ [] }
            else record left { blocked_queue = s.blocked_queue ++ p ∷ [] })
        else (let p' =
              set_waiting_time (pos s.elapsed_time) (set_turnaround_time (pos s.elapsed_time) p) in
            terminate_process p'
              (record s { running_process = rest; frames = without_pages p.pid s.frames })))
    else (if ltb_ℤ s.quantum (pos 1)
        then record s { running_process = rest; ready_queue = s.ready_queue ++ p ∷ [] }
        else record s { running_process = p ∷ rest })

pub check_running_process : Simulator → Simulator
check_running_process s = elim s.running_process [
  | [] ↦ s
  | p ∷ rest ↦
      let p' = decrement_page_life_time (decrement_execution_time p) in
      running_step p' rest (record s { running_process = p' ∷ rest })
]

-- How a round ends: as a replacement may, or with the next state.
pub data Round : Type 0 where
  exited undefined : Round
  ran : (s : Simulator) → Round

abbrev pub replaced : Simulator → Outcome → Round
replaced s Outcome.exited = exited
replaced s Outcome.undefined = undefined
replaced s (Outcome.returned done frames) = ran (record s { frames = frames })

abbrev pub and_then : Round → (Simulator → Round) → Round
and_then exited f = exited
and_then undefined f = undefined
and_then (ran s) f = f s

-- The replacement for the first page of the process that was admitted last; `undefined` where it has
-- no pages.
abbrev pub admit_with : Policy → List Page → Simulator → (Simulator → Round) → Round
admit_with policy [] s f = undefined
admit_with policy (page ∷ pages) s f =
    and_then (replaced s (replace policy page s.elapsed_time s.frames)) f

-- The first argument is the waiting queue.
pub admit_loop : Policy → List Process → Simulator → Round
admit_loop policy [] s = ran s
admit_loop policy (p ∷ ps) s =
    let (done, left, ready) = fcfs (pos s.elapsed_time) (p ∷ ps) s.ready_queue in
    let s' = record s { waiting_queue = left; ready_queue = ready } in
    let rest = admit_with policy p.pages s' (admit_loop policy ps) in
    if is_sys_full s then ran s else rest
