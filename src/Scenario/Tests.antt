-- ===== src/Scenario/Tests.antt =====
-- A line of a scenario of kernal/Process_scheduling/main.cpp, and the theorem on it.
use she_x_mini_operating_sys.Base.{ℕ, ◌≡◌, ◌≢◌, refl, List, [], ◌∷◌, map}
use she_x_mini_operating_sys.Replacement.{Page}
use she_x_mini_operating_sys.Scenario.{set_life_times, get_pages}
use she_x_mini_operating_sys.Scenario.Laws.{count, is_use, uses_of, Chained, get_pages-Chained}

-- Page 7 from 0 on, page 9 from 4 on, page 7 again from 6 on.
abbrev uses : List (ℕ × ℕ)
uses = (0, 7) ∷ (4, 9) ∷ (6, 7) ∷ []

lives : map (λ (p : Page). p.life_time) (get_pages (λ ps. ps) 1 uses) ≡ 4 ∷ 2 ∷ 0 ∷ []
unfolding get_pages set_life_times
lives = refl

get_pages-Chained_example :
    Chained (get_pages (λ ps. ps) 1 uses)
    × ((time value : ℕ)
        → count (is_use time value 1) (get_pages (λ ps. ps) 1 uses) ≡ uses_of time value uses)
    × ((time value other : ℕ)
        → other ≢ 1
        → count (is_use time value other) (get_pages (λ ps. ps) 1 uses) ≡ 0)
get_pages-Chained_example = get_pages-Chained (λ ps. ps) 1 uses refl (λ test. refl)
