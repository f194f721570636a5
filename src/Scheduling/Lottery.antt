-- ===== src/Scheduling/Lottery.antt =====
-- LOTTERY of kernal/include/ProcessSchedulingAlgorithms.h. What `rand()` gives is an argument.
use mathlib.Core.Path.{subst}
use she_x_mini_operating_sys.Base.{
  ℕ, suc, ◌+◌, ◌-◌, ◌*◌, ◌%◌, ◌^◌, ◌<◌, ◌≤◌, ◌≡◌, ap, ◌∙◌, Bool, true, false, ◌&&◌, Bool-cases, inl,
  inr, none, some, List, [], ◌∷◌, ltb, leb, ◌==◌, if◌then◌else◌, u32, arith,
}
use she_x_mini_operating_sys.Base.Int.{ℤ, pos, negsuc, pos_part, neg_part, ◌+ℤ◌}
use she_x_mini_operating_sys.Scheduling.{Process, Queues, Scheduled, dispatch}

-- An `int` as a `uint32_t`, and ten times an `int`.
abbrev pub to_u32 : ℤ → ℕ
to_u32 (pos n) = u32 n
to_u32 (negsuc n) = 2 ^ 32 - 1 - n % 2 ^ 32

abbrev pub ten_times : ℤ → ℤ
ten_times (pos n) = pos (10 * n)
ten_times (negsuc n) = negsuc (10 * n + 9)

-- `countTickets += (getPriority() + 1) * 10`.
abbrev pub add_tickets : ℕ → Process → ℕ
add_tickets count_tickets p = u32 (count_tickets + to_u32 (ten_times (p.priority +ℤ pos 1)))

-- The first loop: the processes with their tickets, and the number of tickets.
unfoldable pub number_tickets : ℕ → List Process → List Process
number_tickets count_tickets [] = []
number_tickets count_tickets (p ∷ ps) =
    let last = add_tickets count_tickets p in
    record p { first_ticket = count_tickets; last_ticket = last } ∷ number_tickets last ps

unfoldable pub total_tickets : ℕ → List Process → ℕ
total_tickets count_tickets [] = count_tickets
total_tickets count_tickets (p ∷ ps) = total_tickets (add_tickets count_tickets p) ps

-- The second loop; `winner` stays 0 where no process has the ticket.
unfoldable pub winner_loop : ℕ → List Process → ℕ → ℕ
winner_loop ticket_winner [] idx = 0
winner_loop ticket_winner (p ∷ ps) idx =
    let rest = winner_loop ticket_winner ps (idx + 1) in
    if leb p.first_ticket ticket_winner && leb ticket_winner p.last_ticket then idx else rest

-- `none` also where the tickets and one more are too many for an `int`.
pub lottery : ℕ → ℤ → Queues → Scheduled
unfolding number_tickets total_tickets winner_loop
lottery drawn elapsed_time q = elim q.ready [
  | [] ↦ some (false, q)
  | first ∷ rest ↦
      let count_tickets = total_tickets 0 q.ready in
      let numbered = number_tickets 0 q.ready in
      let winner = winner_loop (drawn % (count_tickets + 1)) numbered 0 in
      let ran = dispatch elapsed_time winner (record q { ready = numbered; quantum = pos 2 }) in
      if ltb count_tickets (2 ^ 31 - 1) then ran else none
]

-- The tickets that a process is to have.
abbrev pub share : Process → ℕ
share p = 10 * (pos_part p.priority + 1)

abbrev pub shares : List Process → ℕ
shares [] = 0
shares (p ∷ ps) = share p + shares ps

abbrev pub no_negative : List Process → Bool
no_negative [] = true
no_negative (p ∷ ps) = (neg_part p.priority == 0) && no_negative ps

-- Who has a ticket, when each process has its share of them, one after the other from 1 on; the first
-- has the ticket 0 too.
pub data Holder : List Process → ℕ → ℕ → Type 0 where
  first : (p : Process) (ps : List Process) (t : ℕ) → t ≤ share p → Holder (p ∷ ps) t 0
  later :
      (p : Process) (ps : List Process) (t i : ℕ)
      → share p < t
      → Holder ps (t - share p) i
      → Holder (p ∷ ps) t (suc i)

tickets_pos : (n : ℕ) → ten_times (pos n +ℤ pos 1) ≡ pos (10 * (n + 1))
tickets_pos n =
    let fits : leb (0 + 0) (n + 1) ≡ true = ground arith in rw fits (ap pos (omega arith))

tickets_of :
    (z : ℤ)
    → (neg_part z == 0) ≡ true
    → to_u32 (ten_times (z +ℤ pos 1)) ≡ u32 (10 * (pos_part z + 1))
tickets_of (pos n) h = ap to_u32 (tickets_pos n)
tickets_of (negsuc n) h = absurd (ground arith)

add_tickets-share :
    (count : ℕ) (p : Process)
    → (neg_part p.priority == 0) ≡ true
    → count + share p < 2 ^ 32
    → add_tickets count p ≡ count + share p
add_tickets-share count p nonneg room =
    ap (λ (x : ℕ). u32 (count + x)) (tickets_of p.priority nonneg) ∙ omega arith

total_tickets-shares :
    (count : ℕ) (ps : List Process)
    → no_negative ps ≡ true
    → count + shares ps < 2 ^ 32
    → total_tickets count ps ≡ count + shares ps
unfolding total_tickets
total_tickets-shares count [] ok room = omega arith
total_tickets-shares count (p ∷ ps) ok room =
    let here : add_tickets count p ≡ count + share p =
      add_tickets-share count p (ground arith) (omega arith) in
    rw here (total_tickets-shares (count + share p) ps (ground arith) (omega arith) ∙ omega arith)

winner_here :
    (p : Process) (ps : List Process) (count t idx : ℕ)
    → add_tickets count p ≡ count + share p
    → count ≤ t
    → t ≤ count + share p
    → winner_loop t (number_tickets count (p ∷ ps)) idx ≡ idx + 0
unfolding winner_loop number_tickets
winner_here p ps count t idx here low high =
    let from_here : leb count t ≡ true = ground arith in
    let to_there : leb t (count + share p) ≡ true = ground arith in
    rw (here, from_here, to_there) (omega arith)

winner_behind :
    (p : Process) (ps : List Process) (count t idx i : ℕ)
    → add_tickets count p ≡ count + share p
    → count + share p < t
    → winner_loop t (number_tickets (count + share p) ps) (idx + 1) ≡ idx + 1 + i
    → winner_loop t (number_tickets count (p ∷ ps)) idx ≡ idx + suc i
unfolding winner_loop number_tickets
winner_behind p ps count t idx i here beyond found =
    let from_here : leb count t ≡ true = ground arith in
    let not_there : leb t (count + share p) ≡ false = ground arith in
    let step : idx + 1 + i ≡ idx + suc i = omega arith in
    rw (here, from_here, not_there) (found ∙ step)

-- The loops find the holder of a ticket.
winner_loop-Holder :
    (p : Process) (ps : List Process) (count t idx : ℕ)
    → no_negative (p ∷ ps) ≡ true
    → count + shares (p ∷ ps) < 2 ^ 32
    → count ≤ t
    → t ≤ count + shares (p ∷ ps)
    → (i : ℕ) × Holder (p ∷ ps) (t - count) i
      × (winner_loop t (number_tickets count (p ∷ ps)) idx ≡ idx + i)
winner_loop-Holder p [] count t idx ok room low high =
    let here : add_tickets count p ≡ count + share p =
      add_tickets-share count p (ground arith) (omega arith) in
    (
      0,
      Holder.first p [] (t - count) (omega arith),
      winner_here p [] count t idx here low (omega arith),
    )
winner_loop-Holder p (p' ∷ ps) count t idx ok room low high =
    let here : add_tickets count p ≡ count + share p =
      add_tickets-share count p (ground arith) (omega arith) in
    elim (Bool-cases (leb t (count + share p))) [
      | inl inside ↦ (
        0,
        Holder.first p (p' ∷ ps) (t - count) (ground arith),
        winner_here p (p' ∷ ps) count t idx here low (ground arith),
      )
      | inr beyond ↦
          let past : count + share p < t = ground arith in
          let (i, holder, found) =
            winner_loop-Holder p' ps (count + share p) t (idx + 1) (ground arith) (omega arith)
              (omega arith) (omega arith) in
          let less : t - (count + share p) ≡ t - count - share p = omega arith in
          (
            suc i,
            Holder.later p (p' ∷ ps) (t - count) i (omega arith)
                (subst (λ (x : ℕ). Holder (p' ∷ ps) x i) less holder),
            winner_behind p (p' ∷ ps) count t idx i here past found,
          )
    ]

lottery_lem :
    (drawn i : ℕ) (elapsed_time : ℤ) (p : Process) (ps running : List Process) (quantum : ℤ)
    → total_tickets 0 (p ∷ ps) ≡ shares (p ∷ ps)
    → shares (p ∷ ps) < 2 ^ 31 - 1
    → winner_loop (drawn % (shares (p ∷ ps) + 1)) (number_tickets 0 (p ∷ ps)) 0 ≡ 0 + i
    → lottery drawn elapsed_time (record { ready = p ∷ ps; running = running; quantum = quantum })
      ≡ dispatch elapsed_time i
          (record { ready = number_tickets 0 (p ∷ ps); running = running; quantum = pos 2 })
unfolding lottery
lottery_lem drawn i elapsed_time p ps running quantum total few found =
    let numbered : Queues = record {
      ready = number_tickets 0 (p ∷ ps);
      running = running;
      quantum = pos 2;
    } in
    let within : ltb (shares (p ∷ ps)) (2 ^ 31 - 1) ≡ true = ground arith in
    let start : 0 + i ≡ i = omega arith in
    ap
      (λ (n : ℕ).
        if ltb n (2 ^ 31 - 1)
        then dispatch elapsed_time (winner_loop (drawn % (n + 1)) (number_tickets 0 (p ∷ ps)) 0)
            numbered
        else none)
      total
    ∙ rw within (ap (λ (k : ℕ). dispatch elapsed_time k numbered) (found ∙ start))

-- LOTTERY with the number `drawn` of `rand` moves the holder of the ticket `drawn % (total + 1)` to the
-- running list with a quantum of 2: each ready process has ten tickets, and ten more for each step of
-- its priority, one process after the other, and the first of them has one ticket besides. The ready
-- queue is not empty, no priority is negative, and there are fewer than 2 ^ 31 - 1 tickets.
pub lottery-Holder :
    (drawn : ℕ) (elapsed_time : ℤ) (p : Process) (ps running : List Process) (quantum : ℤ)
    → no_negative (p ∷ ps) ≡ true
    → shares (p ∷ ps) < 2 ^ 31 - 1
    → (i : ℕ) × Holder (p ∷ ps) (drawn % (shares (p ∷ ps) + 1)) i
      × (lottery drawn elapsed_time
            (record { ready = p ∷ ps; running = running; quantum = quantum })
          ≡ dispatch elapsed_time i
              (record { ready = number_tickets 0 (p ∷ ps); running = running; quantum = pos 2 }))
lottery-Holder drawn elapsed_time p ps running quantum ok few =
    let total : total_tickets 0 (p ∷ ps) ≡ shares (p ∷ ps) =
      total_tickets-shares 0 (p ∷ ps) ok (omega arith) ∙ omega arith in
    let t : ℕ = drawn % (shares (p ∷ ps) + 1) in
    let (i, holder, found) =
      winner_loop-Holder p ps 0 t 0 ok (omega arith) (omega arith) (omega arith) in
    (
      i,
      subst (λ (x : ℕ). Holder (p ∷ ps) x i) (omega arith) holder,
      lottery_lem drawn i elapsed_time p ps running quantum total few found,
    )
