-- ===== src/Scenario.antt =====
-- `getPages` of kernal/Process_scheduling/main.cpp: the pages of a process from a line of a scenario,
-- whose numbers are arguments, as is the library's `std::sort` by the first use.
pub mod Laws
mod Tests
use she_x_mini_operating_sys.Base.{ℕ, false, List, [], ◌∷◌, map, sub32}
use she_x_mini_operating_sys.Replacement.{Page}

-- `Page(time, 0, value, pid)`, from a time and a value.
abbrev pub read_page : ℕ → ℕ × ℕ → Page
read_page pid (time, value) = record {
  first_use = time;
  life_time = 0;
  value = value;
  pid = pid;
  last_time_used = 0;
  referenced = false;
}

abbrev pub set_life_time : ℕ → Page → Page
set_life_time life_time page = record page { life_time = life_time }

-- A page lives up to the first use of the next one; the last one gets 0.
unfoldable pub set_life_times : List Page → List Page
set_life_times [] = []
set_life_times (page ∷ []) = set_life_time 0 page ∷ []
set_life_times (page ∷ next ∷ pages) =
    set_life_time (sub32 next.first_use page.first_use) page ∷ set_life_times (next ∷ pages)

unfoldable pub get_pages : (List Page → List Page) → ℕ → List (ℕ × ℕ) → List Page
get_pages sort pid entries = set_life_times (sort (map (read_page pid) entries))
