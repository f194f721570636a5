-- ===== src/Shell/Ball/Play.antt =====
-- The turns of the game of kernal/kernel/kshell.c.
use mathlib.Core.Path.{subst}
use she_x_mini_operating_sys.Base.{
  ℕ, ◌*◌, ◌%◌, ◌≤◌, ◌≡◌, ◌⊎◌, refl, sym, ap, ◌∙◌, Bool, true, false, ◌&&◌, Bool-cases, inl, inr,
  Option, none, some, List, [], ◌∷◌, update, ◌==◌, arith,
}
use she_x_mini_operating_sys.Base.Int.{ℤ, eqb_ℤ}
use she_x_mini_operating_sys.Shell.Ball.{
  Ball, Game, game_key, steer, stored, poke_second, poke_both, moved, move_balls, is_out, Turn,
  drawn, judge, after_erasing, game_tick, Wake, keyed, timed, game_step, go_on, game_loop, new_game,
}
use she_x_mini_operating_sys.Shell.Ball.Laws.{
  Direction, Steered, OnScreen, Reached, steer-Steered, poke-OnScreen, moved-Reached,
  Reached-OnScreen,
}

pub record InPlay (g : Game) : Type 0 where
  pub steered1 : Steered g.ball1
  pub steered2 : Steered g.ball2
  pub placed1 : OnScreen g.ball1
  pub placed2 : OnScreen g.ball2

-- Only glyphs of the screen differ, no colours and nothing behind it.
abbrev pub Untouched : (ℕ → ℕ) → (ℕ → ℕ) → Type 0
Untouched text text' = (q : ℕ) → (4000 ≤ q) ⊎ (q % 2 ≡ 1) → text' q ≡ text q

-- How a turn may end: the game goes on on the screen, or a player whose ball has left it has lost.
pub data Fair (text : ℕ → ℕ) : Turn → Type 0 where
  playing : (g : Game) → InPlay g → Untouched text g.text → Fair text (Turn.playing g)
  p1_loses :
      (g : Game) → is_out g.ball1 ≡ true → Untouched text g.text → Fair text (Turn.p1_loses g)
  p2_loses :
      (g : Game)
      → is_out g.ball1 ≡ false
      → is_out g.ball2 ≡ true
      → Untouched text g.text
      → Fair text (Turn.p2_loses g)

steer_place :
    (up down left right input : ℕ) (b : Ball)
    → let b' = steer up down left right input b in (b'.x ≡ b.x) × (b'.y ≡ b.y)
steer_place up down left right input b = elim (Bool-cases (input == up)) [
  | inl u ↦ rw u (refl, refl)
  | inr nu ↦ rw nu (elim (Bool-cases (input == down)) [
    | inl d ↦ rw d (refl, refl)
    | inr nd ↦ rw nd (elim (Bool-cases (input == left)) [
      | inl l ↦ rw l (refl, refl)
      | inr nl ↦ rw nl (elim (Bool-cases (input == right)) [
        | inl r ↦ rw r (refl, refl)
        | inr nr ↦ rw nr (refl, refl)
      ])
    ])
  ])
]

steer-OnScreen :
    (up down left right input : ℕ) (b : Ball)
    → OnScreen b
    → OnScreen (steer up down left right input b)
steer-OnScreen up down left right input b s =
    let (same_x, same_y) = steer_place up down left right input b in
    record {
      column = s.column;
      line = s.line;
      in_row = s.in_row;
      in_col = s.in_col;
      x_place = same_x ∙ s.x_place;
      y_place = same_y ∙ s.y_place;
    }

game_key-InPlay : (input : ℕ) (g : Game) → InPlay g → InPlay (game_key input g)
game_key-InPlay input g p = record {
  steered1 = steer-Steered b'w' b's' b'a' b'd' input g.ball1 p.steered1;
  steered2 = steer-Steered b'i' b'k' b'j' b'l' input g.ball2 p.steered2;
  placed1 = steer-OnScreen b'w' b's' b'a' b'd' input g.ball1 p.placed1;
  placed2 = steer-OnScreen b'i' b'k' b'j' b'l' input g.ball2 p.placed2;
}

keyed-InPlay : (key : Option ℕ) (g : Game) → InPlay g → InPlay (keyed key g)
keyed-InPlay none g p = p
keyed-InPlay (some input) g p = game_key-InPlay input g p

poke_both-OnScreen :
    (c1 c2 : ℕ) (g : Game)
    → OnScreen g.ball1
    → OnScreen g.ball2
    → (text : ℕ → ℕ) × (poke_both c1 c2 g ≡ some (record g { text = text })) × Untouched g.text text
poke_both-OnScreen c1 c2 g s1 s2 =
    let (cell1, in1, e1) = poke-OnScreen g.ball1 c1 g.text s1 in
    let (cell2, in2, e2) = poke-OnScreen g.ball2 c2 (update g.text (2 * cell1) c1) s2 in
    (
      update (update g.text (2 * cell1) c1) (2 * cell2) c2,
      ap (poke_second c2 g) e1 ∙ ap (stored g) e2,
      λ q out. ground (arith, out),
    )

judge-Fair :
    (text : ℕ → ℕ) (g : Game)
    → Steered g.ball1
    → Steered g.ball2
    → Reached g.ball1
    → Reached g.ball2
    → Untouched text g.text
    → Fair text (judge g)
judge-Fair text g s1 s2 r1 r2 same = elim (Bool-cases (is_out g.ball1)) [
  | inl out1 ↦ rw out1 (Fair.p1_loses g out1 same)
  | inr in1 ↦ rw in1 (elim (Bool-cases (is_out g.ball2)) [
    | inl out2 ↦ rw out2 (Fair.p2_loses g in1 out2 same)
    | inr in2 ↦ rw in2 (
        let placed1 : OnScreen g.ball1 = Reached-OnScreen g.ball1 r1 in1 in
        let placed2 : OnScreen g.ball2 = Reached-OnScreen g.ball2 r2 in2 in
        let (text', written, kept) = poke_both-OnScreen b'o' b'*' g placed1 placed2 in
        subst (Fair text) (sym (ap drawn written)) (
          Fair.playing (record g { text = text' })
            (record { steered1 = s1; steered2 = s2; placed1 = placed1; placed2 = placed2 })
            (λ q out. kept q out ∙ same q out)))
  ])
]

same_place :
    (b : Ball) (x_dir y_dir : ℤ) → OnScreen b → OnScreen (record b { x_dir = x_dir; y_dir = y_dir })
same_place b x_dir y_dir s = record {
  column = s.column;
  line = s.line;
  in_row = s.in_row;
  in_col = s.in_col;
  x_place = s.x_place;
  y_place = s.y_place;
}

move_balls-Fair :
    (text : ℕ → ℕ) (g : Game) → InPlay g → Untouched text g.text → Fair text (judge (move_balls g))
move_balls-Fair text g p same =
    let b1 = moved g.ball1 in
    let b2 = g.ball2 in
    let r1 : Reached b1 = moved-Reached g.ball1 p.placed1 p.steered1 in
    let s1 : Steered b1 = record { x_way = p.steered1.x_way; y_way = p.steered1.y_way } in
    elim (Bool-cases (eqb_ℤ b1.x b2.x && eqb_ℤ b1.y b2.y)) [
      | inl meet ↦
          let c2 : Ball = record b2 { x_dir = b1.x_dir; y_dir = b1.y_dir } in
          let t2 : Steered c2 = record { x_way = p.steered1.x_way; y_way = p.steered1.y_way } in
          rw meet (
            judge-Fair text _ (record { x_way = p.steered2.x_way; y_way = p.steered2.y_way })
              (record { x_way = p.steered1.x_way; y_way = p.steered1.y_way })
              (record { x_near = r1.x_near; y_near = r1.y_near })
              (moved-Reached c2 (same_place b2 b1.x_dir b1.y_dir p.placed2) t2) same)
      | inr pass ↦ rw pass (
          judge-Fair text _ s1 (record { x_way = p.steered2.x_way; y_way = p.steered2.y_way }) r1
            (moved-Reached b2 p.placed2 p.steered2) same)
    ]

game_tick-Fair : (g : Game) → InPlay g → Fair g.text (game_tick g)
game_tick-Fair g p =
    let (text, erased, same) = poke_both-OnScreen 0 0 g p.placed1 p.placed2 in
    subst (Fair g.text) (sym (ap after_erasing erased)) (
      move_balls-Fair g.text (record g { text = text })
        (record {
          steered1 = p.steered1;
          steered2 = p.steered2;
          placed1 = p.placed1;
          placed2 = p.placed2;
        })
        same)

timed-Fair :
    (tick : Bool) (text : ℕ → ℕ) (g : Game) → InPlay g → g.text ≡ text → Fair text (timed tick g)
timed-Fair true text g p e = subst (λ (x : ℕ → ℕ). Fair x (game_tick g)) e (game_tick-Fair g p)
timed-Fair false text g p e = Fair.playing g p (λ q out. ap (λ (x : ℕ → ℕ). x q) e)

keyed_text : (key : Option ℕ) (g : Game) → (keyed key g).text ≡ g.text
keyed_text none g = refl
keyed_text (some input) g = refl

game_step-Fair : (w : Wake) (g : Game) → InPlay g → Fair g.text (game_step w g)
game_step-Fair w g p =
    timed-Fair w.tick g.text (keyed w.key g) (keyed-InPlay w.key g p) (keyed_text w.key g)

Fair-from : (text text' : ℕ → ℕ) (t : Turn) → Untouched text text' → Fair text' t → Fair text t
Fair-from text text' t same (Fair.playing g p kept) =
    Fair.playing g p (λ q out. kept q out ∙ same q out)
Fair-from text text' t same (Fair.p1_loses g out1 kept) =
    Fair.p1_loses g out1 (λ q out. kept q out ∙ same q out)
Fair-from text text' t same (Fair.p2_loses g in1 out2 kept) =
    Fair.p2_loses g in1 out2 (λ q out. kept q out ∙ same q out)

go_on-Fair :
    (text : ℕ → ℕ) (rest : Game → Turn) (t : Turn)
    → Fair text t
    → ((g : Game) → InPlay g → Fair g.text (rest g))
    → Fair text (go_on rest t)
go_on-Fair text rest t (Fair.playing g p kept) next = Fair-from text g.text (rest g) kept (next g p)
go_on-Fair text rest t (Fair.p1_loses g out1 kept) next = Fair.p1_loses g out1 kept
go_on-Fair text rest t (Fair.p2_loses g in1 out2 kept) next = Fair.p2_loses g in1 out2 kept

game_loop-InPlay : (wakes : List Wake) (g : Game) → InPlay g → Fair g.text (game_loop wakes g)
unfolding game_loop
game_loop-InPlay [] g p = Fair.playing g p (λ q out. refl)
game_loop-InPlay (w ∷ wakes) g p =
    go_on-Fair g.text (game_loop wakes) (game_step w g) (game_step-Fair w g p)
      (game_loop-InPlay wakes)

-- Whatever keys and ticks wake a new game, it goes on with both balls on the screen and their directions
-- -1, 0 or 1, or the first player has lost with the first ball off the screen, or the second with only
-- the second ball off it; and no byte was written but glyphs of the screen's 2000 cells.
pub game_loop-Fair :
    (wakes : List Wake) (text : ℕ → ℕ) → Fair text (game_loop wakes (new_game text))
game_loop-Fair wakes text = game_loop-InPlay wakes (new_game text) (record {
  steered1 = record { x_way = Direction.still; y_way = Direction.still };
  steered2 = record { x_way = Direction.still; y_way = Direction.still };
  placed1 = record {
    column = 0;
    line = 0;
    in_row = omega arith;
    in_col = omega arith;
    x_place = refl;
    y_place = refl;
  };
  placed2 = record {
    column = 79;
    line = 24;
    in_row = omega arith;
    in_col = omega arith;
    x_place = refl;
    y_place = refl;
  };
})
