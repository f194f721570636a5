-- ===== src/Simulator/Rounds.antt =====
-- One round of the loop of `StartSimulation` in kernal/Process_scheduling/Simulate.cpp.
use she_x_mini_operating_sys.Base.{
  suc, ◌+◌, ◌%◌, ◌^◌, Bool, true, false, not, ◌&&◌, none, some, List, [], ◌∷◌, ltb, ◌==◌,
  if◌then◌else◌, length, get_or, set,
}
use she_x_mini_operating_sys.Base.Int.{pos, ◌-ℤ◌, ltb_ℤ}
use she_x_mini_operating_sys.Replacement.{
  Page, Policy, find_page, replace, set_last_time_used, set_reference, blank,
}
use she_x_mini_operating_sys.Scheduling.{Process, Algorithm, Scheduled, schedule, get_page}
use she_x_mini_operating_sys.Simulator.{
  Simulator, is_empty_queue, check_incoming_queue, check_blocked_queue, check_ready_suspensed_queue,
  check_running_process, Round, undefined, ran, replaced, and_then, admit_loop,
}

-- `for (...) if (...) { ...; return true; }` over the frames, for the page of the running process.
abbrev pub touch_page : Page → Simulator → Bool × Simulator
touch_page page s =
    let memory = s.frames.memory in
    let i = find_page page memory in
    let touched = set_reference (set_last_time_used (s.elapsed_time + 1) (get_or memory i blank)) in
    if ltb i (length memory)
    then (
      true,
      record s {
        frames = record s.frames { memory = set memory i touched };
        hits = suc s.hits % 2 ^ 32;
      },
    )
    else (false, record s { miss = suc s.miss % 2 ^ 32 })

-- `get_page` may drop a page of the process, and is asked again for the comparison.
abbrev pub look_up : Page × Process → List Process → Simulator → Bool × Simulator
look_up (page, p) rest s =
    let s' = record s { running_process = p ∷ rest } in
    if page.life_time == 0 then (true, s') else touch_page (get_page p).0 s'

abbrev pub in_memory : List Process → Simulator → Bool × Simulator
in_memory [] s = (true, s)
in_memory (p ∷ rest) s = look_up (get_page p) rest s

unfoldable pub page_in_memory : Simulator → Bool × Simulator
page_in_memory s = in_memory s.running_process s

abbrev pub scheduled : Simulator → Scheduled → Round
scheduled s none = undefined
scheduled s (some (done, q)) = ran (record s {
  ready_queue = q.ready;
  running_process = q.running;
  quantum = q.quantum;
  cpu_idle = not done;
})

abbrev pub run_step : Algorithm → List Process → Simulator → Round
run_step algorithm [] s = scheduled s (
    schedule algorithm (pos s.elapsed_time)
      (record { ready = s.ready_queue; running = []; quantum = s.quantum }))
run_step algorithm (p ∷ rest) s = ran s

-- The scheduling where no process runs.
unfoldable pub run_next : Algorithm → Simulator → Round
run_next algorithm s = run_step algorithm s.running_process s

abbrev pub request_step : Policy → Page × Process → List Process → Simulator → Round
request_step policy (page, p) rest s =
    replaced (record s { running_process = p ∷ rest }) (replace policy page s.elapsed_time s.frames)

-- The call of the replacement for the running process.
abbrev pub request_page : Policy → List Process → Simulator → Round
request_page policy [] s = undefined
request_page policy (p ∷ rest) s = request_step policy (get_page p) rest s

abbrev pub bring_missing : Policy → Bool × Simulator → Round
bring_missing policy (true, s) = ran s
bring_missing policy (false, s) = request_page policy s.running_process s

abbrev pub bring_running : Policy → List Process → Simulator → Round
bring_running policy [] s = undefined
bring_running policy (p ∷ rest) s =
    if ltb_ℤ (pos 0) p.remains_execution_time
    then bring_missing policy (page_in_memory s)
    else ran s

unfoldable pub bring_page : Policy → Simulator → Round
bring_page policy s = if s.cpu_idle then ran s else bring_running policy s.running_process s

unfoldable pub end_round : Simulator → Simulator
end_round s = record s {
  elapsed_time = suc s.elapsed_time;
  quantum = s.quantum -ℤ pos 1;
  cpu_idle_time =
      if s.cpu_idle && is_empty_queue s.running_process
      then suc s.cpu_idle_time
      else s.cpu_idle_time;
}

abbrev pub checks : Simulator → Simulator
checks s = check_running_process (check_ready_suspensed_queue (check_blocked_queue s))

unfoldable pub round : Policy → Algorithm → Simulator → Round
round policy algorithm s =
    let s' = check_incoming_queue s in
    and_then (admit_loop policy s'.waiting_queue s') λ t.
      and_then (run_next algorithm (checks t))
        λ u. and_then (bring_page policy u) λ v. ran (end_round v)
