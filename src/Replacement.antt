-- ===== src/Replacement.antt =====
-- kernal/include/PageReplacementAlgorithms.h: the page replacement of the simulator, on the pages of
-- kernal/include/Page.h.
pub mod Search
pub mod Service
pub mod Moves
pub mod Lru
pub mod Clock
pub mod Laws
pub mod Copies
mod Tests
use she_x_mini_operating_sys.Base.{
  ℕ, zero, suc, Bool, true, false, ◌&&◌, Option, none, some, List, [], ◌∷◌, ◌++◌, ◌==◌, ltb, leb,
  if◌then◌else◌, length, get_elem?, get_or, set, erase,
}

-- The times in the type double are whole numbers here.
pub record Page : Type 0 where
  pub first_use : ℕ
  pub life_time : ℕ
  pub value : ℕ
  pub pid : ℕ
  pub last_time_used : ℕ
  pub referenced : Bool

abbrev pub blank : Page
blank = record {
  first_use = 0;
  life_time = 0;
  value = 0;
  pid = 0;
  last_time_used = 0;
  referenced = false;
}

abbrev pub set_last_time_used : ℕ → Page → Page
set_last_time_used elapsed_time p = record p { last_time_used = elapsed_time }

abbrev pub set_reference : Page → Page
set_reference p = record p { referenced = true }

abbrev pub reset_reference : Page → Page
reset_reference p = record p { referenced = false }

abbrev pub number_of_memory_frames : ℕ
number_of_memory_frames = 30

-- The two vectors, and the hand of the clock.
pub record Pages : Type 0 where
  pub memory : List Page
  pub disk : List Page
  pub clock_p : ℕ

-- How a call ends: `exit(1)`, a read out of a vector or a loop that goes on, or a return.
pub data Outcome : Type 0 where
  exited undefined : Outcome
  returned : (done : Bool) (pages : Pages) → Outcome

abbrev pub is_same : Page → Page → Bool
is_same page p = (p.value == page.value) && (p.pid == page.pid)

-- The index at which the search on the disk stops.
unfoldable pub find_page : Page → List Page → ℕ
find_page page [] = 0
find_page page (p ∷ ps) = let rest = find_page page ps in if is_same page p then 0 else suc rest

abbrev pub is_empty : List Page → Bool
is_empty [] = true
is_empty (p ∷ ps) = false

-- `memory.push_back(disk[i]); disk.erase(i)`, with what is set on the new page of the memory.
abbrev pub load_page : (Page → Page) → ℕ → Pages → Outcome
load_page mark i s = elim (get_elem? s.disk i) [
  | none ↦ undefined
  | some q ↦ returned true (record s { memory = s.memory ++ mark q ∷ []; disk = erase s.disk i })
]

-- `disk.push_back(memory[0]); memory.erase(0)`.
abbrev pub evict_first : Pages → Option Pages
evict_first s = elim s.memory [
  | [] ↦ none
  | v ∷ rest ↦ some (record s { memory = rest; disk = s.disk ++ v ∷ [] })
]

-- `disk.push_back(memory[k]); memory[k] = disk[i]; disk.erase(i)`.
abbrev pub swap_page : (Page → Page) → ℕ → ℕ → Pages → Outcome
swap_page mark k i s = elim (get_elem? s.memory k) [
  | none ↦ undefined
  | some v ↦
      let disk = s.disk ++ v ∷ [] in
      elim (get_elem? disk i) [
        | none ↦ undefined
        | some q ↦
            returned true (record s { memory = set s.memory k (mark q); disk = erase disk i })
      ]
]

abbrev pub is_full : Pages → Bool
is_full s = leb number_of_memory_frames (length s.memory)

abbrev pub fifo_bring : ℕ → Pages → Outcome
fifo_bring i s =
    if is_full s
    then elim (evict_first s) [ none ↦ undefined | some s' ↦ load_page (λ q. q) i s' ]
    else load_page (λ q. q) i s

abbrev pub last_used : List Page → ℕ → ℕ
last_used pages j = (get_or pages j blank).last_time_used

-- The loop from the last page down to the first.
pub lru_loop : List Page → ℕ → ℕ → ℕ
lru_loop memory zero lru = lru
lru_loop memory (suc j) lru =
    lru_loop memory j (if ltb (last_used memory j) (last_used memory lru) then j else lru)

abbrev pub lru_bring : ℕ → ℕ → Pages → Outcome
lru_bring elapsed_time i s =
    if is_full s
    then swap_page (set_last_time_used elapsed_time) (lru_loop s.memory (length s.memory) 0) i s
    else load_page (set_last_time_used elapsed_time) i s

-- The turns of the hand, on fuel: the memory with the bits that were reset, and where it stops.
pub turn_clock : ℕ → List Page → ℕ → Option (List Page × ℕ)
turn_clock zero memory clock_p = none
turn_clock (suc fuel) memory clock_p =
    let hand = if leb number_of_memory_frames clock_p then 0 else clock_p in
    let p = get_or memory hand blank in
    let next = turn_clock fuel (set memory hand (reset_reference p)) (suc hand) in
    if ltb hand (length memory) then (if p.referenced then next else some (memory, hand)) else none

abbrev pub clock_bring : ℕ → Pages → Outcome
clock_bring i s =
    if is_full s
    then elim (turn_clock (suc (length s.memory)) s.memory s.clock_p) [
      | none ↦ undefined
      | some (memory, hand) ↦
          swap_page set_reference hand i (record s { memory = memory; clock_p = suc hand })
    ]
    else load_page set_reference i s

-- What the three have in common around their own part, which gets the page's index on the disk.
abbrev pub request : (ℕ → Pages → Outcome) → Page → Pages → Outcome
request bring page s =
    let i = find_page page s.disk in
    if is_empty s.disk
    then returned false s
    else (if ltb 0 page.life_time
        then (if leb (length s.disk) i then exited else bring i s)
        else returned false s)

pub fifo : Page → ℕ → Pages → Outcome
fifo page elapsed_time = request fifo_bring page

pub lru : Page → ℕ → Pages → Outcome
lru page elapsed_time = request (lru_bring elapsed_time) page

pub clock : Page → ℕ → Pages → Outcome
clock page elapsed_time = request clock_bring page

-- The policies that the simulation may be given.
pub data Policy : Type 0 where
  fifo_policy lru_policy clock_policy : Policy

pub replace : Policy → Page → ℕ → Pages → Outcome
replace fifo_policy = fifo
replace lru_policy = lru
replace clock_policy = clock
