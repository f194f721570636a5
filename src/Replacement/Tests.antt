-- ===== src/Replacement/Tests.antt =====
-- The page replacements of kernal/include/PageReplacementAlgorithms.h at concrete vectors.
use she_x_mini_operating_sys.Base.{ℕ, zero, suc, ◌≡◌, refl, true, List, [], ◌∷◌, map}
use she_x_mini_operating_sys.Replacement.{
  Page, Pages, Outcome, exited, undefined, returned, fifo_policy, lru_policy, clock_policy,
  find_page, lru_loop, turn_clock, fifo, lru, clock, replace,
}
use she_x_mini_operating_sys.Replacement.Service.{Serves}
use she_x_mini_operating_sys.Replacement.Laws.{replace-Serves}
use she_x_mini_operating_sys.Replacement.Copies.{Keeps, replace-Keeps}

abbrev page_of : ℕ → ℕ → Page
page_of value last_time_used = record {
  first_use = 0;
  life_time = 1;
  value = value;
  pid = 7;
  last_time_used = last_time_used;
  referenced = true;
}

-- The pages n, ..., 2, 1, of which the page 1 was last used first.
abbrev pages_down : ℕ → List Page
pages_down zero = []
pages_down (suc n) = page_of (suc n) n ∷ pages_down n

abbrev full_memory : Pages
full_memory = record {
  memory = pages_down 30;
  disk = page_of 40 0 ∷ page_of 41 0 ∷ [];
  clock_p = 29;
}

values : Outcome → List ℕ
values exited = []
values undefined = []
values (returned done s) = map (λ (p : Page). p.value) s.disk

-- FIFO evicts the first page of the memory, LRU the least recently used, CLOCK the one under the hand
-- after a whole turn.
evicts_first : values (replace fifo_policy (page_of 40 0) 50 full_memory) ≡ 41 ∷ 30 ∷ []
unfolding values replace fifo find_page
evicts_first = refl

evicts_oldest : values (replace lru_policy (page_of 41 0) 50 full_memory) ≡ 40 ∷ 1 ∷ []
unfolding values replace lru find_page lru_loop
evicts_oldest = refl

evicts_after_turn : values (replace clock_policy (page_of 40 0) 50 full_memory) ≡ 41 ∷ 1 ∷ []
unfolding values replace clock find_page turn_clock
evicts_after_turn = refl

replace-Serves_example :
    Serves clock_policy
      (page_of 40 0)
      50
      full_memory
      (replace clock_policy (page_of 40 0) 50 full_memory)
replace-Serves_example = replace-Serves clock_policy (page_of 40 0) 50 full_memory

replace-Keeps_example :
    Keeps (page_of 41 0) full_memory (replace lru_policy (page_of 41 0) 50 full_memory)
replace-Keeps_example = replace-Keeps lru_policy (page_of 41 0) 50 full_memory
