-- ===== src/Shell/Ball/Laws.antt =====
-- The game of kernal/kernel/kshell.c stays on the screen.
use mathlib.Core.Path.{subst}
use she_x_mini_operating_sys.Base.{
  ℕ, zero, suc, ◌+◌, ◌*◌, ◌<◌, ◌≤◌, ◌≡◌, refl, sym, ap, ◌∙◌, Bool, true, false, ◌||◌, Bool-cases,
  inl, inr, some, ◌==◌, update, leb, arith,
}
use she_x_mini_operating_sys.Base.Int.{ℤ, pos, negsuc, difference, ◌+ℤ◌, ltb_ℤ, eqb_ℤ}
use she_x_mini_operating_sys.Shell.Ball.{Ball, slower, faster, steer, poke_at, poke, moved, is_out}

-- A direction is -1, 0 or 1.
pub data Direction : ℤ → Type 0 where
  back : Direction (negsuc 0)
  still : Direction (pos 0)
  forth : Direction (pos 1)

pub record Steered (b : Ball) : Type 0 where
  pub x_way : Direction b.x_dir
  pub y_way : Direction b.y_dir

-- A place on the screen.
pub record OnScreen (b : Ball) : Type 0 where
  pub column : ℕ
  pub line : ℕ
  pub in_row : column < 80
  pub in_col : line < 25
  pub x_place : b.x ≡ pos column
  pub y_place : b.y ≡ pos line

slower-Direction : (d : ℤ) → Direction d → Direction (slower d)
slower-Direction d Direction.back = Direction.back
slower-Direction d Direction.still = Direction.back
slower-Direction d Direction.forth = Direction.still

faster-Direction : (d : ℤ) → Direction d → Direction (faster d)
faster-Direction d Direction.back = Direction.still
faster-Direction d Direction.still = Direction.forth
faster-Direction d Direction.forth = Direction.forth

pub steer-Steered :
    (up down left right input : ℕ) (b : Ball)
    → Steered b
    → Steered (steer up down left right input b)
steer-Steered up down left right input b s = elim (Bool-cases (input == up)) [
  | inl u ↦ rw u (record { x_way = s.x_way; y_way = slower-Direction b.y_dir s.y_way })
  | inr nu ↦ rw nu (elim (Bool-cases (input == down)) [
    | inl d ↦ rw d (record { x_way = s.x_way; y_way = faster-Direction b.y_dir s.y_way })
    | inr nd ↦ rw nd (elim (Bool-cases (input == left)) [
      | inl l ↦ rw l (record { x_way = slower-Direction b.x_dir s.x_way; y_way = s.y_way })
      | inr nl ↦ rw nl (elim (Bool-cases (input == right)) [
        | inl r ↦ rw r (record { x_way = faster-Direction b.x_dir s.x_way; y_way = s.y_way })
        | inr nr ↦ rw nr s
      ])
    ])
  ])
]

offset_at : (c l : ℕ) → difference (2 * c + 160 * l) (2 * 0 + 160 * 0) ≡ pos (2 * c + 160 * l)
offset_at c l =
    let fits : leb (2 * 0 + 160 * 0) (2 * c + 160 * l) ≡ true = ground arith in
    rw fits (ap pos (omega arith))

-- A ball on the screen is written at one of the even offsets below 4000.
pub poke-OnScreen :
    (b : Ball) (c : ℕ) (text : ℕ → ℕ)
    → OnScreen b
    → (cell : ℕ) × (cell < 2000) × (poke b c text ≡ some (update text (2 * cell) c))
poke-OnScreen b c text s =
    let where_it_is : 2 * s.column + 160 * s.line ≡ 2 * (s.column + 80 * s.line) = omega arith in
    (
      s.column + 80 * s.line,
      omega (arith, s.in_row, s.in_col),
      rw (s.x_place, s.y_place)
          (ap (λ (z : ℤ). poke_at z c text) (offset_at s.column s.line)
            ∙ ap (λ (o : ℕ). some (update text o c)) where_it_is),
    )

-- One step off the screen at most.
pub data Near (n : ℕ) : ℤ → Type 0 where
  within : (c : ℕ) → c ≤ n → Near n (pos c)
  before : Near n (negsuc 0)

step_from : (n c : ℕ) (d : ℤ) → c < n → Direction d → Near n (pos c +ℤ d)
step_from n zero d h Direction.back = Near.before
step_from n (suc c) d h Direction.back =
    let e : pos (suc c) +ℤ negsuc 0 ≡ pos c =
      let fits : leb (0 + 1) (suc c + 0) ≡ true = ground arith in rw fits (ap pos (omega arith)) in
    subst (Near n) (sym e) (Near.within c (omega arith))
step_from n c d h Direction.still =
    let e : pos c +ℤ pos 0 ≡ pos c =
      let fits : leb (0 + 0) (c + 0) ≡ true = ground arith in rw fits (ap pos (omega arith)) in
    subst (Near n) (sym e) (Near.within c (omega arith))
step_from n c d h Direction.forth =
    let e : pos c +ℤ pos 1 ≡ pos (c + 1) =
      let fits : leb (0 + 0) (c + 1) ≡ true = ground arith in rw fits (ap pos (omega arith)) in
    subst (Near n) (sym e) (Near.within (c + 1) (omega arith))

step-Near : (n c : ℕ) (z d : ℤ) → c < n → z ≡ pos c → Direction d → Near n (z +ℤ d)
step-Near n c z d h e way = subst (λ (x : ℤ). Near n (x +ℤ d)) (sym e) (step_from n c d h way)

Near-inside :
    (n : ℕ) (z : ℤ)
    → Near n z
    → eqb_ℤ z (pos n) ≡ false
    → ltb_ℤ z (pos 0) ≡ false
    → (c : ℕ) × (c < n) × (z ≡ pos c)
Near-inside n z (Near.within c h) e l = (c, ground arith, refl)
Near-inside n z Near.before e l = absurd (cc)

or_false : (a b : Bool) → (a || b) ≡ false → (a ≡ false) × (b ≡ false)
or_false true b h = absurd (cc)
or_false false b h = (refl, h)

pub record Reached (b : Ball) : Type 0 where
  pub x_near : Near 80 b.x
  pub y_near : Near 25 b.y

pub moved-Reached : (b : Ball) → OnScreen b → Steered b → Reached (moved b)
moved-Reached b s t = record {
  x_near = step-Near 80 s.column b.x b.x_dir s.in_row s.x_place t.x_way;
  y_near = step-Near 25 s.line b.y b.y_dir s.in_col s.y_place t.y_way;
}

pub Reached-OnScreen : (b : Ball) → Reached b → is_out b ≡ false → OnScreen b
Reached-OnScreen b r h =
    let (o_xyz, o_y25) = or_false _ _ h in
    let (o_xx, o_y0) = or_false _ _ o_xyz in
    let (o_x80, o_x0) = or_false _ _ o_xx in
    let (c, c_lt, c_eq) = Near-inside 80 b.x r.x_near o_x80 o_x0 in
    let (l, l_lt, l_eq) = Near-inside 25 b.y r.y_near o_y25 o_y0 in
    record { column = c; line = l; in_row = c_lt; in_col = l_lt; x_place = c_eq; y_place = l_eq }
