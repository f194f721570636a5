-- ===== src/Keyboard/Laws.antt =====
-- The keyboard handler: its modifiers, its reads of the table, and waiting for it.
use she_x_mini_operating_sys.Base.{
  ℕ, zero, suc, ◌<◌, ◌≡◌, refl, true, false, not, ◌||◌, some, List, [], ◌∷◌, ◌++◌, arith, ltb, ◌==◌,
  if◌then◌else◌, get_elem?, length, replicate, Bool-cases, inl, inr,
}
use she_x_mini_operating_sys.Keyboard.{
  Keyboard, table_word, make_code, extended_code, break_code, keyboard_handler, wait_loop,
  wait_for_keyboard,
}
use she_x_mini_operating_sys.Keyboard.Keys.{scancode_std}

pub get_elem?-some {ℓ} :
    {A : Type ℓ} (xs : List A) (i : ℕ) → i < length xs → (x : A) × (get_elem? xs i ≡ some x)
get_elem?-some [] i h = absurd (omega arith)
get_elem?-some (x ∷ xs) zero h = (x, refl)
get_elem?-some (x ∷ xs) (suc i) h = get_elem?-some xs i (omega arith)

pub table_word_inside : (f g : ℕ → ℕ) (s : ℕ) → s < 0x59 → table_word f s ≡ table_word g s
unfolding table_word
table_word_inside f g s h = let (key, e) = get_elem?-some scancode_std s h in rw e

-- The handler reads past the end of the table on the codes from 0x59, and never uses what it read: its
-- result does not depend on it.
pub keyboard_handler_beyond :
    (f g : ℕ → ℕ) (k : Keyboard) (s s2 : ℕ) → keyboard_handler f k s s2 ≡ keyboard_handler g k s s2
unfolding keyboard_handler
keyboard_handler_beyond f g k s s2 = elim (Bool-cases (ltb s 0x57)) [
  | inl low ↦
      let same : table_word f s ≡ table_word g s = table_word_inside f g s (ground arith) in rw same
  | inr high ↦ rw high
]

-- The flag and the three modifiers after an interrupt with scan code `s`.
pub record Modifiers (k k' : Keyboard) (s : ℕ) : Type 0 where
  pub flag : k'.is_keyboard_interrupt ≡ true
  pub shift : k'.is_shift_pressed ≡ (
      if (s == 0x2a) || (s == 0x36)
      then true
      else (if (s == 0xaa) || (s == 0xb6) then false else k.is_shift_pressed))
  pub caps : k'.caps_toggle ≡ (if s == 0x3a then not k.caps_toggle else k.caps_toggle)
  pub num_lock :
      k'.num_lock_toggle ≡ (if s == 0x45 then not k.num_lock_toggle else k.num_lock_toggle)

-- Every interrupt sets the flag; shift is set by its two make
-- codes and cleared by its two break codes; caps lock and num lock change on their make codes; and no
-- other code touches these.
pub keyboard_handler-Modifiers :
    (beyond : ℕ → ℕ) (k : Keyboard) (s s2 : ℕ) → Modifiers k (keyboard_handler beyond k s s2) s
unfolding keyboard_handler make_code extended_code break_code
keyboard_handler-Modifiers beyond k s s2 = record {
  flag = ground arith;
  shift = ground arith;
  caps = ground arith;
  num_lock = ground arith;
}

wait_skips :
    (n : ℕ) (k : Keyboard) (interrupt : Keyboard → Keyboard) (wakes : List (Keyboard → Keyboard))
    → (interrupt (record k { is_keyboard_interrupt = false })).is_keyboard_interrupt ≡ true
    → wait_loop
        (record k { is_keyboard_interrupt = false })
        (replicate n (λ j. j) ++ interrupt ∷ wakes)
      ≡ some (
        record (interrupt (record k { is_keyboard_interrupt = false })) {
          is_keyboard_interrupt = false;
        },
        wakes,
      )
unfolding wait_loop
wait_skips zero k interrupt wakes on = rw on
wait_skips (suc n) k interrupt wakes on = wait_skips n k interrupt wakes on

-- `wait_for_keyboard` sleeps through any number of other interrupts, which leave the keyboard's state
-- alone, and returns after the first interrupt of the keyboard, with its flag cleared again.
pub wait_for_keyboard_lem :
    (n : ℕ) (beyond : ℕ → ℕ) (k : Keyboard) (s s2 : ℕ) (wakes : List (Keyboard → Keyboard))
    → wait_for_keyboard k (replicate n (λ j. j) ++ (λ j. keyboard_handler beyond j s s2) ∷ wakes)
      ≡ some (
        record (keyboard_handler beyond (record k { is_keyboard_interrupt = false }) s s2) {
          is_keyboard_interrupt = false;
        },
        wakes,
      )
unfolding wait_for_keyboard
wait_for_keyboard_lem n beyond k s s2 wakes =
    let asleep = record k { is_keyboard_interrupt = false } in
    wait_skips n k (λ j. keyboard_handler beyond j s s2) wakes
      (keyboard_handler-Modifiers beyond asleep s s2).flag
