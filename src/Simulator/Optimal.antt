-- ===== src/Simulator/Optimal.antt =====
-- `PageReplacementAlgorithm_OPTIMAL` of kernal/Process_scheduling/Simulate.cpp.
use she_x_mini_operating_sys.Base.{
  ℕ, suc, ◌+◌, ◌<◌, ◌≤◌, ◌≡◌, refl, sym, ap, ◌∙◌, Bool, true, false, Bool-cases, inl, inr, Option,
  none, some, List, [], ◌∷◌, ◌++◌, ◌==◌, ltb, leb, if◌then◌else◌, length, get_or, set, arith,
}
use she_x_mini_operating_sys.Base.Int.{ℤ, pos, negsuc, ltb_ℤ, eqb_ℤ}
use she_x_mini_operating_sys.Base.Splits.{Split-get_or, set-split}
use she_x_mini_operating_sys.Replacement.{
  Page, Pages, blank, is_empty, is_same, find_page, load_page,
}
use she_x_mini_operating_sys.Replacement.Search.{found, missing, find_page-Search}
use she_x_mini_operating_sys.Replacement.Copies.{
  copies, weight, copies-split, copies-append, copies-one,
}
use she_x_mini_operating_sys.Scheduling.{Process, get_page, max_int}
use she_x_mini_operating_sys.Simulator.{Simulator, Round, exited, undefined, ran, replaced}

-- `Process::willUsePage`, of the page list from index `i` on.
pub will_use_page : Page → List Page → ℕ → ℤ
will_use_page page [] i = max_int
will_use_page page (p ∷ ps) i =
    let rest = will_use_page page ps (suc i) in if page.value == p.value then pos i else rest

-- The first ready process of the page's number, if any.
pub ready_use : Page → List Process → Option ℤ
ready_use page [] = none
ready_use page (p ∷ ps) =
    let rest = ready_use page ps in
    if page.pid == p.pid then some (will_use_page page p.pages 0) else rest

abbrev pub next_use : Process → List Process → Page → Option ℤ
next_use running ready page =
    if page.pid == running.pid
    then some (will_use_page page running.pages 0)
    else ready_use page ready

-- The index and the time of use that are kept after page `j`.
abbrev pub later_use : ℕ → ℕ → ℤ → Option ℤ → ℕ × ℤ
later_use j opt_p future_use none = (opt_p, future_use)
later_use j opt_p future_use (some when) =
    if ltb_ℤ future_use when then (j, when) else (opt_p, future_use)

pub optimal_loop : Process → List Process → List Page → ℕ → ℕ → ℤ → ℕ
optimal_loop running ready [] j opt_p future_use = opt_p
optimal_loop running ready (page ∷ pages) j opt_p future_use =
    let (next, when) = later_use j opt_p future_use (next_use running ready page) in
    let rest = optimal_loop running ready pages (suc j) next when in
    if eqb_ℤ when max_int then next else rest

-- `Disk.push_back(memoryFrames[k]); memoryFrames[k] = Disk[i]`, with indices of the two vectors.
abbrev pub exchange : ℕ → ℕ → Pages → Pages
exchange k i frames = record frames {
  memory = set frames.memory k (get_or frames.disk i blank);
  disk = frames.disk ++ get_or frames.memory k blank ∷ [];
}

abbrev pub optimal_bring : Process → ℕ → Simulator → Round
optimal_bring p i s =
    if is_empty s.frames.memory
    then replaced s (load_page (λ q. q) i s.frames)
    else ran (record s {
      frames = exchange (optimal_loop p s.ready_queue s.frames.memory 0 0 (negsuc 0)) i s.frames;
    })

-- For the page that the running process, which may lose a page by the look at it, uses now.
abbrev pub optimal_request : Page → Process → Simulator → Round
optimal_request page p s =
    let i = find_page page s.frames.disk in
    if is_empty s.frames.disk
    then ran s
    else (if ltb 0 page.life_time
        then (if leb (length s.frames.disk) i then exited else optimal_bring p i s)
        else ran s)

abbrev pub optimal_step : Page × Process → List Process → Simulator → Round
optimal_step (page, p) rest s = optimal_request page p (record s { running_process = p ∷ rest })

pub optimal : List Process → Simulator → Round
optimal [] s = undefined
optimal (p ∷ rest) s = optimal_step (get_page p) rest s

-- The choice is a page of the memory.
optimal_loop-lt :
    (running : Process) (ready : List Process) (pages : List Page) (j opt_p : ℕ) (future_use : ℤ)
    (size : ℕ)
    → opt_p < size
    → j + length pages ≤ size
    → optimal_loop running ready pages j opt_p future_use < size
unfolding optimal_loop
optimal_loop-lt running ready [] j opt_p future_use size h k = h
optimal_loop-lt running ready (page ∷ pages) j opt_p future_use size h k =
    choose (eqb_ℤ kept.1 max_int) inside
      (optimal_loop-lt running ready pages (suc j) kept.0 kept.1 size inside (omega arith))
  where
    kept : ℕ × ℤ
    kept = later_use j opt_p future_use (next_use running ready page)

    either : (x : Option ℤ) → (later_use j opt_p future_use x).0 < size
    either none = h
    either (some when) = elim (Bool-cases (ltb_ℤ future_use when)) [
      | inl on ↦ rw on (omega arith)
      | inr off ↦ rw off h
    ]

    inside : kept.0 < size
    inside = either (next_use running ready page)

    choose : (b : Bool) {m n : ℕ} → m < size → n < size → (if b then m else n) < size
    choose true p q = p
    choose false p q = q

-- A page that is exchanged stays on the disk.
pub exchange-copies :
    (page : Page) (k i : ℕ) (frames : Pages)
    → k < length frames.memory
    → let after = exchange k i frames in
      copies page after.memory + copies page after.disk
      ≡ copies page frames.memory
        + copies page frames.disk
        + weight page (get_or frames.disk i blank)
exchange-copies page k i frames h =
    let v = get_or frames.memory k blank in
    let q = get_or frames.disk i blank in
    let s = Split-get_or frames.memory k blank h in
    let put : set frames.memory k q ≡ s.front ++ q ∷ s.back =
      ap (λ m. set m k q) s.whole
      ∙ ap (λ n. set (s.front ++ v ∷ s.back) n q) (sym s.index)
      ∙ set-split s.front s.back v q in
    omega (
      arith,
      ap (copies page) put,
      ap (copies page) s.whole,
      copies-split page s.front q s.back,
      copies-split page s.front v s.back,
      copies-append page frames.disk (v ∷ []),
      copies-one page v,
    )

find_page-is_same :
    (page : Page) (disk : List Page)
    → find_page page disk < length disk
    → is_same page (get_or disk (find_page page disk) blank) ≡ true
find_page-is_same page disk h = elim (find_page-Search page disk) [
  | missing all beyond ↦ absurd (omega arith)
  | found before q after whole same none_before index ↦
      let here : get_or disk (find_page page disk) blank ≡ q =
        ap (λ i. get_or disk i blank) index
        ∙ ap (λ d. get_or d (length before) blank) whole
        ∙ at_split before q after in
      ap (is_same page) here ∙ same
]
  where
    at_split :
        (xs : List Page) (x : Page) (ys : List Page) → get_or (xs ++ x ∷ ys) (length xs) blank ≡ x
    at_split [] x ys = refl
    at_split (z ∷ xs) x ys = at_split xs x ys

-- Where the page that the running process uses has life time and is found on the disk, and the memory is
-- not empty, OPTIMAL returns with one page more than before in the two vectors together: a page of that
-- value and process stands there once more, and every other page as often as before.
pub optimal_lem :
    (p : Process) (rest : List Process) (s : Simulator)
    → 0 < (get_page p).0.life_time
    → 0 < length s.frames.memory
    → find_page (get_page p).0 s.frames.disk < length s.frames.disk
    → (t : Simulator) × (q : Page) × (optimal (p ∷ rest) s ≡ ran t)
      × (is_same (get_page p).0 q ≡ true)
      × ((page : Page)
          → copies page t.frames.memory + copies page t.frames.disk
            ≡ copies page s.frames.memory + copies page s.frames.disk + weight page q)
unfolding optimal
optimal_lem p rest s alive some_page there =
    let (page, p') = get_page p in
    let i = find_page page s.frames.disk in
    let k = optimal_loop p' s.ready_queue s.frames.memory 0 0 (negsuc 0) in
    let inside =
      optimal_loop-lt p' s.ready_queue s.frames.memory 0 0 (negsuc 0) (length s.frames.memory)
        some_page (omega arith) in
    let life : ltb 0 page.life_time ≡ true = ground arith in
    let on_disk : leb (length s.frames.disk) i ≡ false = ground arith in
    (
      record s { running_process = p' ∷ rest; frames = exchange k i s.frames },
      get_or s.frames.disk i blank,
      rw (not_empty s.frames.disk (omega arith))
          (rw life (rw on_disk (rw (not_empty s.frames.memory some_page) refl))),
      find_page-is_same page s.frames.disk there,
      λ key. exchange-copies key k i s.frames inside,
    )
  where
    not_empty : (ps : List Page) → 0 < length ps → is_empty ps ≡ false
    not_empty [] h = absurd (omega arith)
    not_empty (q ∷ ps) h = refl
