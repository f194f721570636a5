-- ===== src/Shell/Editor/Cells.antt =====
-- The loop of kernal/kernel/kshell.c that closes a gap in the line, on the buffer and on the screen.
use mathlib.Core.Path.{subst}
use she_x_mini_operating_sys.Base.{
  ℕ, zero, suc, ◌+◌, ◌-◌, ◌^◌, ◌<◌, ◌≤◌, ◌≡◌, ◌≢◌, inl, inr, refl, sym, ap, ◌∙◌, true, false,
  Bool-cases, ltb, ◌==◌, if◌then◌else◌, update, arith,
}
use she_x_mini_operating_sys.Console.{Console, putc}
use she_x_mini_operating_sys.Console.Screen.{Screen, view, settle}
use she_x_mini_operating_sys.Console.Laws.{put_one, view-putc}
use she_x_mini_operating_sys.Shell.Editor.{Editor, shift_one, shift_loop}

-- What `putc` shows as a glyph.
abbrev pub Glyph : ℕ → Type 0
Glyph c = (c ≢ 0x08) × (c ≢ 0x0a)

pub putc-Glyph :
    (c q : ℕ) (k : Console)
    → Glyph c
    → k.cursor < 2 ^ 16 - 1
    → ((view (putc c k)).glyph q ≡ (if k.cursor == q then c else (view k).glyph q))
      × ((putc c k).cursor ≡ k.cursor + 1)
putc-Glyph c q k (not_back, not_line) h =
    let shown : view (putc c k) ≡ settle (put_one k.current_color (view k) c) =
      view-putc c k (omega arith) in
    let other : (c == 0x08) ≡ false = ground arith in
    let same : (c == 0x0a) ≡ false = ground arith in
    (
      ap (λ (s : Screen). s.glyph q) shown ∙ rw (other, same) refl,
      ap (λ (s : Screen). s.position) shown ∙ rw (other, same) (omega arith),
    )

pub putc-back :
    (q : ℕ) (k : Console)
    → 0 < k.cursor
    → k.cursor < 2 ^ 16
    → ((view (putc 0x08 k)).glyph q ≡ (if k.cursor - 1 == q then 0 else (view k).glyph q))
      × ((putc 0x08 k).cursor ≡ k.cursor - 1)
putc-back q k low high =
    let shown : view (putc 0x08 k) ≡ settle (put_one k.current_color (view k) 0x08) =
      view-putc 0x08 k high in
    let away : (k.cursor == 0) ≡ false = ground arith in
    (
      ap (λ (s : Screen). s.glyph q) shown ∙ rw away refl,
      ap (λ (s : Screen). s.position) shown ∙ rw away (omega arith),
    )

shift_loop_stop : (fuel k : ℕ) (e : Editor) → e.cmd_buffer k ≡ 0 → shift_loop fuel k e ≡ e
unfolding shift_loop
shift_loop_stop zero k e h = refl
shift_loop_stop (suc fuel) k e h =
    let stop : (e.cmd_buffer k == 0) ≡ true = ground arith in rw stop refl

-- A line whose letters from index `k` up to the 0 at `n` have moved down by one.
abbrev pub closed_line : (ℕ → ℕ) → ℕ → ℕ → ℕ → ℕ
closed_line b k n j = if ltb j k then b j else if ltb j n then b (suc j) else b j

-- The same on a screen where the line begins at `start`.
abbrev pub closed_cells : (ℕ → ℕ) → (ℕ → ℕ) → ℕ → ℕ → ℕ → ℕ → ℕ
closed_cells b g start k n q =
    if ltb q (start + k) then g q else if ltb q (start + n) then b (suc (q - start)) else g q

closed_line_step :
    (b : ℕ → ℕ) (k n j : ℕ)
    → k < n
    → closed_line (update b k (b (k + 1))) (k + 1) n j ≡ closed_line b k n j
closed_line_step b k n j h = ground arith

closed_cells_step :
    (b g g' : ℕ → ℕ) (start k n q : ℕ)
    → k < n
    → g' q ≡ (if start + k == q then b (k + 1) else g q)
    → closed_cells (update b k (b (k + 1))) g' start (k + 1) n q ≡ closed_cells b g start k n q
closed_cells_step b g g' start k n q h e = ground arith

-- The letters of a line from an index on can be shown, and a 0 stands behind them.
pub record Letters (b : ℕ → ℕ) (k n : ℕ) : Type 0 where
  pub ink : (j : ℕ) → k ≤ j → j < n → b j ≢ 0
  pub glyph : (j : ℕ) → k ≤ j → j < n → Glyph (b j)
  pub end : b n ≡ 0

Letters-next : (b : ℕ → ℕ) (k n : ℕ) → k < n → Letters b k n → Glyph (b (k + 1))
Letters-next b k n h l = elim (Bool-cases (k + 1 == n)) [
  | inl last ↦
      let nothing : b (k + 1) ≡ 0 = ap b (ground arith) ∙ l.end in
      (λ e. absurd (omega arith), λ e. absurd (omega arith))
  | inr inner ↦ l.glyph (k + 1) (omega arith) (ground arith)
]

Letters-shift :
    (b : ℕ → ℕ) (k n : ℕ) → k < n → Letters b k n → Letters (update b k (b (k + 1))) (k + 1) n
Letters-shift b k n h l =
    let kept : (j : ℕ) → k < j → b j ≡ update b k (b (k + 1)) j = λ j a. ground arith in
    record {
      ink = λ j a c. subst (λ (x : ℕ). x ≢ 0) (kept j (omega arith)) (l.ink j (omega arith) c);
      glyph = λ j a c. subst Glyph (kept j (omega arith)) (l.glyph j (omega arith) c);
      end = sym (kept n h) ∙ l.end;
    }

-- The buffer and the screen after the loop, at any index.
pub shift_loop_lem :
    (start left k n fuel : ℕ) (e : Editor)
    → k + left ≡ n
    → left ≤ fuel
    → start + n + 1 < 2 ^ 16
    → e.console.cursor ≡ start + k
    → Letters e.cmd_buffer k n
    → (j : ℕ)
    → ((shift_loop fuel k e).cmd_buffer j ≡ closed_line e.cmd_buffer k n j)
      × ((view (shift_loop fuel k e).console).glyph j
          ≡ closed_cells e.cmd_buffer (view e.console).glyph start k n j)
unfolding shift_loop
shift_loop_lem start zero k n fuel e size enough room place letters j =
    let here : k ≡ n = omega arith in
    let stop : shift_loop fuel k e ≡ e =
      shift_loop_stop fuel k e (ap e.cmd_buffer here ∙ letters.end) in
    (
      ap (λ (r : Editor). r.cmd_buffer j) stop ∙ ground arith,
      ap (λ (r : Editor). (view r.console).glyph j) stop ∙ ground arith,
    )
shift_loop_lem start (suc left) k n zero e size enough room place letters j = absurd (omega arith)
shift_loop_lem start (suc left) k n (suc fuel) e size enough room place letters j =
    let inside : k < n = omega arith in
    let go : (e.cmd_buffer k == 0) ≡ false = ground (arith, letters.ink k (omega arith) inside) in
    let (put_j, moved) =
      putc-Glyph (e.cmd_buffer (k + 1)) j e.console (Letters-next e.cmd_buffer k n inside letters)
        (omega arith) in
    let (below, shown) =
      shift_loop_lem start left (k + 1) n fuel (shift_one k e) (omega arith) (omega arith) room
        (moved ∙ omega arith) (Letters-shift e.cmd_buffer k n inside letters) j in
    rw go (
      below ∙ closed_line_step e.cmd_buffer k n j inside,
      shown
          ∙ closed_cells_step e.cmd_buffer (view e.console).glyph
              (view (shift_one k e).console).glyph start k n j inside
              (put_j
                ∙ ap (λ (c : ℕ). if c == j then e.cmd_buffer (k + 1) else (view e.console).glyph j)
                    place),
    )
