-- ===== src/Scenario/Laws.antt =====
-- The life times of the pages of kernal/Process_scheduling/main.cpp.
use she_x_mini_operating_sys.Base.{
  ℕ, suc, ◌+◌, ◌≡◌, ◌≢◌, refl, ap, false, ◌∙◌, Bool, true, ◌&&◌, List, [], ◌∷◌, map, leb, ◌==◌,
  if◌then◌else◌, u32, sub32, arith,
}
use she_x_mini_operating_sys.Replacement.{Page}
use she_x_mini_operating_sys.Scenario.{read_page, set_life_time, set_life_times, get_pages}

abbrev pub is_sorted : List Page → Bool
is_sorted [] = true
is_sorted (page ∷ []) = true
is_sorted (page ∷ next ∷ pages) = leb page.first_use next.first_use && is_sorted (next ∷ pages)

-- How many pages a test holds of.
abbrev pub count : (Page → Bool) → List Page → ℕ
count test [] = 0
count test (page ∷ pages) = if test page then suc (count test pages) else count test pages

-- The uses of a value by a process from a time on.
abbrev pub is_use : ℕ → ℕ → ℕ → Page → Bool
is_use time value pid page =
    (page.first_use == time) && ((page.value == value) && (page.pid == pid))

-- Each page lives up to the first use of the next, in 32 bits, and the last page not at all.
pub data Chained : List Page → Type 0 where
  none_left : Chained []
  last : (page : Page) → page.life_time ≡ 0 → Chained (page ∷ [])
  linked :
      (page next : Page) (pages : List Page)
      → u32 (page.first_use + page.life_time) ≡ u32 next.first_use
      → Chained (next ∷ pages)
      → Chained (page ∷ next ∷ pages)

-- The life times are set on the first page that is left, without a change of its first use.
linked_to :
    (page next : Page) (pages : List Page)
    → u32 (page.first_use + page.life_time) ≡ u32 next.first_use
    → Chained (set_life_times (next ∷ pages))
    → Chained (page ∷ set_life_times (next ∷ pages))
unfolding set_life_times
linked_to page next [] e c = Chained.linked page (set_life_time 0 next) [] e c
linked_to page next (third ∷ pages) e c =
    Chained.linked page (set_life_time (sub32 third.first_use next.first_use) next)
      (set_life_times (third ∷ pages)) e c

set_life_times-Chained :
    (pages : List Page) → is_sorted pages ≡ true → Chained (set_life_times pages)
unfolding set_life_times
set_life_times-Chained [] h = Chained.none_left
set_life_times-Chained (page ∷ []) h = Chained.last (set_life_time 0 page) refl
set_life_times-Chained (page ∷ next ∷ pages) h =
    let order : leb page.first_use next.first_use ≡ true = ground arith in
    linked_to (set_life_time (sub32 next.first_use page.first_use) page) next pages (ground arith)
      (set_life_times-Chained (next ∷ pages) (ground arith))

count-set_life_times :
    (time value pid : ℕ) (pages : List Page)
    → count (is_use time value pid) (set_life_times pages) ≡ count (is_use time value pid) pages
unfolding set_life_times
count-set_life_times time value pid [] = refl
count-set_life_times time value pid (page ∷ []) = refl
count-set_life_times time value pid (page ∷ next ∷ pages) =
    ap (λ (n : ℕ). if is_use time value pid page then suc n else n)
      (count-set_life_times time value pid (next ∷ pages))

-- The uses of a value from a time on in the numbers of a line.
abbrev pub uses_of : ℕ → ℕ → List (ℕ × ℕ) → ℕ
uses_of time value [] = 0
uses_of time value ((first, page) ∷ entries) =
    if (first == time) && (page == value)
    then suc (uses_of time value entries)
    else uses_of time value entries

count-read_page :
    (time value pid : ℕ) (entries : List (ℕ × ℕ))
    → count (is_use time value pid) (map (read_page pid) entries) ≡ uses_of time value entries
count-read_page time value pid [] = refl
count-read_page time value pid ((first, page) ∷ entries) =
    let own : (pid == pid) ≡ true = ground arith in
    let rest = count-read_page time value pid entries in rw own (ground (arith, rest))

count_other :
    (time value pid other : ℕ) (entries : List (ℕ × ℕ))
    → other ≢ pid
    → count (is_use time value other) (map (read_page pid) entries) ≡ 0
count_other time value pid other [] ne = refl
count_other time value pid other ((first, page) ∷ entries) ne =
    let foreign : (pid == other) ≡ false = ground arith in
    let rest = count_other time value pid other entries ne in rw foreign (ground (arith, rest))

-- Each page of a line but the last lives up to the first use of the next, in 32 bits, the last has no
-- life time, there are as many pages of the process with a first use and a value as the line has pairs
-- of them, and none of another process. `sort` is to return the line's pages in the order of their first
-- uses, with as many pages of every kind.
pub get_pages-Chained :
    (sort : List Page → List Page) (pid : ℕ) (entries : List (ℕ × ℕ))
    → is_sorted (sort (map (read_page pid) entries)) ≡ true
    → ((test : Page → Bool)
        → count test (sort (map (read_page pid) entries))
          ≡ count test (map (read_page pid) entries))
    → Chained (get_pages sort pid entries)
      × ((time value : ℕ)
          → count (is_use time value pid) (get_pages sort pid entries) ≡ uses_of time value entries)
      × ((time value other : ℕ)
          → other ≢ pid
          → count (is_use time value other) (get_pages sort pid entries) ≡ 0)
unfolding get_pages
get_pages-Chained sort pid entries sorted permuted = (
  set_life_times-Chained (sort (map (read_page pid) entries)) sorted,
  λ time value.
      count-set_life_times time value pid (sort (map (read_page pid) entries))
      ∙ permuted (is_use time value pid)
      ∙ count-read_page time value pid entries,
  λ time value other ne.
      count-set_life_times time value other (sort (map (read_page pid) entries))
      ∙ permuted (is_use time value other)
      ∙ count_other time value pid other entries ne,
)
