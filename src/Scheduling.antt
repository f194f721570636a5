-- ===== src/Scheduling.antt =====
-- kernal/Process_scheduling/Process.cpp and kernal/include/ProcessSchedulingAlgorithms.h: the processes
-- of the simulator and the choice of the one that runs next. Times in the type double are whole numbers.
pub mod Choice
pub mod Lottery
pub mod Laws
mod Tests
use she_x_mini_operating_sys.Base.{
  ℕ, zero, suc, ◌+◌, ◌-◌, ◌*◌, ◌/◌, ◌%◌, ◌^◌, Bool, true, false, Option, none, some, List, [], ◌∷◌,
  ◌++◌, ltb, leb, ◌&&◌, ◌==◌, if◌then◌else◌, length, get_elem?, set, erase,
}
use she_x_mini_operating_sys.Base.Int.{ℤ, pos, negsuc, ◌+ℤ◌, ◌-ℤ◌, ltb_ℤ, eqb_ℤ}
use she_x_mini_operating_sys.Replacement.{Page, blank}

pub record Process : Type 0 where
  pub pages : List Page
  pub pid : ℕ
  pub priority : ℤ
  pub times_executed : ℕ
  pub submission_time : ℤ
  pub remains_execution_time : ℤ
  pub block_time : ℤ
  pub waiting_time : ℤ
  pub response_time : ℤ
  pub turnaround_time : ℤ
  pub first_ticket : ℕ
  pub last_ticket : ℕ
  pub total_executation_time : ℤ

abbrev pub is_alive : Page → Bool
is_alive page = ltb 0 page.life_time

-- The second page, after the first has expired and is dropped.
abbrev pub second_page : Process → List Page → Page × Process
second_page p [] = (blank, record p { pages = [] })
second_page p (page ∷ rest) =
    (if is_alive page then page else blank, record p { pages = page ∷ rest })

abbrev pub current_page : Process → List Page → Page × Process
current_page p [] = (blank, p)
current_page p (page ∷ rest) =
    if ltb_ℤ (p.total_executation_time -ℤ p.remains_execution_time) (pos page.first_use)
    then (blank, p)
    else (if is_alive page then (page, p) else second_page p rest)

-- The page that the process uses now, or `Page(0,0,0,0)`, and the process, which may have lost a page.
unfoldable pub get_page : Process → Page × Process
get_page p = current_page p p.pages

unfoldable pub update_submission_time : ℤ → Process → Process
update_submission_time elapsed_time p = record p { submission_time = elapsed_time }

unfoldable pub set_response_time : ℤ → Process → Process
set_response_time elapsed_time p = record p { response_time = elapsed_time -ℤ p.submission_time }

unfoldable pub set_waiting_time : ℤ → Process → Process
set_waiting_time elapsed_time p = record p {
  waiting_time = elapsed_time -ℤ (p.submission_time +ℤ p.total_executation_time);
}

unfoldable pub set_turnaround_time : ℤ → Process → Process
set_turnaround_time elapsed_time p = record p {
  turnaround_time = elapsed_time -ℤ p.submission_time;
}

unfoldable pub increment_times_executed : Process → Process
increment_times_executed p = record p { times_executed = suc p.times_executed }

unfoldable pub decrement_execution_time : Process → Process
decrement_execution_time p =
    if ltb_ℤ (pos 0) p.remains_execution_time
    then record p { remains_execution_time = p.remains_execution_time -ℤ pos 1 }
    else p

unfoldable pub decrement_block_time : Process → Process
decrement_block_time p =
    if ltb_ℤ (pos 0) p.block_time then record p { block_time = p.block_time -ℤ pos 1 } else p

abbrev pub life_step : Process → List Page → Process
life_step p [] = p
life_step p (page ∷ rest) =
    if ltb 0 page.life_time
    then record p { pages = record page { life_time = page.life_time - 1 } ∷ rest }
    else p

unfoldable pub decrement_page_life_time : Process → Process
decrement_page_life_time p = life_step p p.pages

-- The two queues and the quantum that a scheduling algorithm gets by pointers.
pub record Queues : Type 0 where
  pub ready : List Process
  pub running : List Process
  pub quantum : ℤ

-- `if (firstTimeRunning(p)) p.setResponseTime(elapsed_time)`.
abbrev pub started : ℤ → Process → Process
started elapsed_time p =
    if eqb_ℤ p.response_time (negsuc 0) then set_response_time elapsed_time p else p

-- The call's value and the queues; `none` is a read out of the vector.
abbrev pub Scheduled : Type 0
Scheduled = Option (Bool × Queues)

-- `runningList->push_back(ready[i]); readyQueue->erase(i)`, after the first start has been noted.
abbrev pub dispatch : ℤ → ℕ → Queues → Scheduled
dispatch elapsed_time i q = elim (get_elem? q.ready i) [
  | none ↦ none
  | some p ↦ some (
    true,
    record q { ready = erase q.ready i; running = q.running ++ started elapsed_time p ∷ [] },
  )
]

abbrev pub max_int : ℤ
max_int = pos 0x7fff_ffff

-- The loop of PRIORITY, with the highest priority seen and its index.
pub priority_loop : List Process → ℤ → ℕ → ℕ → ℕ
priority_loop [] priority best i = best
priority_loop (p ∷ ps) priority best i =
    if ltb_ℤ priority p.priority
    then priority_loop ps p.priority i (suc i)
    else priority_loop ps priority best (suc i)

pub priority_scheduling : ℤ → Queues → Scheduled
priority_scheduling elapsed_time q = elim q.ready [
  | [] ↦ some (false, q)
  | first ∷ rest ↦
      dispatch elapsed_time (priority_loop q.ready first.priority 0 0)
        (record q { quantum = max_int })
]

pub rr : ℤ → Queues → Scheduled
rr elapsed_time q = elim q.ready [
  | [] ↦ some (false, q)
  | first ∷ rest ↦
      let p = started elapsed_time first in
      elim q.running [
        | [] ↦ some (true, record { ready = rest; running = p ∷ []; quantum = pos 2 })
        | r ∷ rs ↦ some (true, record { ready = rest ++ r ∷ []; running = p ∷ rs; quantum = pos 2 })
      ]
]

pub sd : ℕ → ℤ → Queues → Scheduled
sd max_process_multiprogramming elapsed_time q = elim q.ready [
  | [] ↦ some (false, q)
  | first ∷ rest ↦
      dispatch elapsed_time 0
        (record q { quantum = pos (max_process_multiprogramming / length q.ready) })
]

-- The second loop of FEEDBACK: the lowest priority seen and its index. The first loop sets priorities
-- on copies of the processes, which are dropped.
pub feedback_loop : List Process → ℤ → ℕ → ℕ → ℤ × ℕ
feedback_loop [] priority best i = (priority, best)
feedback_loop (p ∷ ps) priority best i =
    if ltb_ℤ p.priority priority
    then feedback_loop ps p.priority i (suc i)
    else feedback_loop ps priority best (suc i)

abbrev pub feedback_quantum : ℤ → ℤ → ℤ
feedback_quantum priority quantum =
    if eqb_ℤ priority (pos 0)
    then pos 1
    else if eqb_ℤ priority (pos 1)
    then pos 2
    else if eqb_ℤ priority (pos 2)
    then pos 4
    else if eqb_ℤ priority (pos 3)
    then pos 8
    else quantum

-- What follows the loop, on the process that it found.
abbrev pub feedback_run : ℤ → ℤ × ℕ → Queues → Option Process → Scheduled
feedback_run elapsed_time (priority, best) q none = none
feedback_run elapsed_time (priority, best) q (some p) = dispatch elapsed_time best (record q {
  ready = set q.ready best (increment_times_executed p);
  quantum = feedback_quantum priority q.quantum;
})

pub feedback : ℤ → Queues → Scheduled
feedback elapsed_time q = elim q.ready [
  | [] ↦ some (false, q)
  | first ∷ rest ↦
      let found = feedback_loop q.ready first.priority 0 0 in
      feedback_run elapsed_time found q (get_elem? q.ready found.1)
]

-- Moves the first process to the ready queue, with the time as its submission time.
unfoldable pub fcfs : ℤ → List Process → List Process → Bool × List Process × List Process
fcfs elapsed_time [] ready_queue = (false, [], ready_queue)
fcfs elapsed_time (p ∷ waiting_queue) ready_queue =
    (true, waiting_queue, ready_queue ++ update_submission_time elapsed_time p ∷ [])

-- The algorithms that the simulation may be given; `maxProcessMultiprogramming` belongs to SD.
pub data Algorithm : Type 0 where
  use_rr use_priority use_feedback : Algorithm
  use_sd : (max_process_multiprogramming : ℕ) → Algorithm

pub schedule : Algorithm → ℤ → Queues → Scheduled
schedule use_rr = rr
schedule use_priority = priority_scheduling
schedule use_feedback = feedback
schedule (use_sd n) = sd n
