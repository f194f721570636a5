-- ===== src/Keyboard/Typing.antt =====
-- What typing on a US keyboard gives, against the keyboard handler.
use she_x_mini_operating_sys.Base.{
  ℕ, zero, suc, ◌-◌, ◌<◌, ◌≡◌, ◌≢◌, refl, Bool, true, false, not, ◌&&◌, ◌||◌, xor, Option, none,
  some, List, [], ◌∷◌, arith, ltb, ◌==◌, if◌then◌else◌, get_elem?, length, Bool-cases, inl, inr,
  ◌∙◌, u8,
}
use she_x_mini_operating_sys.Keyboard.{
  Keyboard, is_alphabet, is_on_keypad, table_word, shift_case, shifted, make_code, keyboard_handler,
}
use she_x_mini_operating_sys.Base.Check.{passes_below, passes}
use she_x_mini_operating_sys.Keyboard.Laws.{table_word_inside}

-- The US layout: the lower and the upper character of the key behind each scan code, up to the row of
-- `z`. Keys that print nothing have none.
abbrev rows : List (Option (ℕ × ℕ))
rows =
    none
    ∷ none
    ∷ some (b'1', b'!')
    ∷ some (b'2', b'@')
    ∷ some (b'3', b'#')
    ∷ some (b'4', b'$')
    ∷ some (b'5', b'%')
    ∷ some (b'6', b'^')
    ∷ some (b'7', b'&')
    ∷ some (b'8', b'*')
    ∷ some (b'9', b'(')
    ∷ some (b'0', b')')
    ∷ some (b'-', b'_')
    ∷ some (b'=', b'+')
    ∷ none
    ∷ none
    ∷ some (b'q', b'Q')
    ∷ some (b'w', b'W')
    ∷ some (b'e', b'E')
    ∷ some (b'r', b'R')
    ∷ some (b't', b'T')
    ∷ some (b'y', b'Y')
    ∷ some (b'u', b'U')
    ∷ some (b'i', b'I')
    ∷ some (b'o', b'O')
    ∷ some (b'p', b'P')
    ∷ some (b'[', b'{')
    ∷ some (b']', b'}')
    ∷ none
    ∷ none
    ∷ some (b'a', b'A')
    ∷ some (b's', b'S')
    ∷ some (b'd', b'D')
    ∷ some (b'f', b'F')
    ∷ some (b'g', b'G')
    ∷ some (b'h', b'H')
    ∷ some (b'j', b'J')
    ∷ some (b'k', b'K')
    ∷ some (b'l', b'L')
    ∷ some (b';', b':')
    ∷ some (0x27, 0x22)
    ∷ some (0x60, b'~')
    ∷ none
    ∷ some (0x5c, b'|')
    ∷ some (b'z', b'Z')
    ∷ some (b'x', b'X')
    ∷ some (b'c', b'C')
    ∷ some (b'v', b'V')
    ∷ some (b'b', b'B')
    ∷ some (b'n', b'N')
    ∷ some (b'm', b'M')
    ∷ some (b',', b'<')
    ∷ some (b'.', b'>')
    ∷ some (b'/', b'?')
    ∷ []

abbrev pub layout : ℕ → Option (ℕ × ℕ)
layout s = elim (get_elem? rows s) [ none ↦ none | some key ↦ key ]

-- The character that a key gives: shift and caps lock undo one another on letters, and caps lock does
-- nothing to the other keys.
abbrev pub typed : Bool → Bool → ℕ × ℕ → ℕ
typed shift caps (lower, upper) =
    if is_alphabet lower
    then (if xor shift caps then upper else lower)
    else (if shift then upper else lower)

abbrev case_is : ℕ → ℕ → Bool
case_is c upper = elim (shift_case c) [ none ↦ false | some u ↦ u == upper ]

abbrev key_ok : ℕ → ℕ → ℕ → Bool
key_ok s lower upper =
    (table_word (λ i. 0) s == lower)
    && ltb lower 256
    && not (s == 0x2a)
    && not (s == 0x36)
    && ltb s 0x36
    && (if is_alphabet lower then upper == lower - 0x20 else case_is lower upper)

abbrev layout_ok : ℕ → Bool
layout_ok s = elim (layout s) [ none ↦ true | some (lower, upper) ↦ key_ok s lower upper ]

layout_table : passes_below layout_ok 0x36 ≡ true
unfolding passes_below table_word shift_case
layout_table = refl

row_below :
    (rows : List (Option (ℕ × ℕ))) (s : ℕ) (key : ℕ × ℕ)
    → elim (get_elem? rows s) [ none ↦ none | some o ↦ o ] ≡ some key
    → s < length rows
row_below [] s key e = absurd (cc)
row_below (row ∷ rows) zero key e = omega arith
row_below (row ∷ rows) (suc s) key e = omega (arith, row_below rows s key e)

key_facts : (s lower upper : ℕ) → layout s ≡ some (lower, upper) → key_ok s lower upper ≡ true
key_facts s lower upper e =
    rw e at (passes layout_ok 0x36 layout_table s (row_below rows s (lower, upper) e))

record KeyFacts (s lower upper : ℕ) : Type 0 where
  word : table_word (λ i. 0) s ≡ lower
  small : lower < 256
  low : s < 0x36
  no_shift : s ≢ 0x2a
  letter : is_alphabet lower ≡ true → upper ≡ lower - 0x20
  other : is_alphabet lower ≡ false → shift_case lower ≡ some upper

case_is_lem : (c upper : ℕ) → case_is c upper ≡ true → shift_case c ≡ some upper
case_is_lem c upper h = ground arith

key_ok-KeyFacts : (s lower upper : ℕ) → key_ok s lower upper ≡ true → KeyFacts s lower upper
key_ok-KeyFacts s lower upper ok = record {
  word = ground arith;
  small = ground arith;
  low = ground arith;
  no_shift = ground arith;
  letter = λ h. ground arith;
  other = λ h. case_is_lem lower upper (ground arith);
}

typed_word :
    (beyond : ℕ → ℕ) (s lower upper : ℕ) → KeyFacts s lower upper → u8 (table_word beyond s) ≡ lower
typed_word beyond s lower upper facts =
    let low = facts.low in
    let small = facts.small in
    let inside : table_word beyond s ≡ lower =
      table_word_inside beyond (λ i. 0) s (omega arith) ∙ facts.word in
    rw inside (omega arith)

typed_shifted : (lower upper old : ℕ) → shift_case lower ≡ some upper → shifted lower old ≡ upper
typed_shifted lower upper old e = rw (e, shifted)

-- The character of a key, as its branch of the handler leaves it.
abbrev letter_or_sign : Bool → Bool → ℕ → ℕ → ℕ
letter_or_sign shift caps c old =
    if xor shift caps && is_alphabet c
    then c - 0x20
    else (if shift && not (is_alphabet c) then shifted c old else c)

latest_char-if :
    (a b : Bool) (x y z : Keyboard)
    → (if a then x else (if b then y else z)).latest_char
      ≡ (if a then x.latest_char else (if b then y.latest_char else z.latest_char))
latest_char-if true b x y z = refl
latest_char-if false true x y z = refl
latest_char-if false false x y z = refl

handler_letter :
    (beyond : ℕ → ℕ) (k : Keyboard) (s s2 lower upper : ℕ)
    → KeyFacts s lower upper
    → (keyboard_handler beyond k s s2).latest_char
      ≡ letter_or_sign k.is_shift_pressed k.caps_toggle lower k.latest_char
unfolding keyboard_handler make_code
handler_letter beyond k s s2 lower upper facts =
    let low = facts.low in
    let no_shift = facts.no_shift in
    let lowest : ltb s 0x57 ≡ true = ground arith in
    let shift : ((s == 0x2a) || (s == 0x36)) ≡ false = ground arith in
    let caps : (s == 0x3a) ≡ false = ground arith in
    let num_lock : (s == 0x45) ≡ false = ground arith in
    let keypad : is_on_keypad s ≡ false = ground arith in
    rw (typed_word beyond s lower upper facts, lowest, shift, caps, num_lock, keypad)
      (latest_char-if (xor k.is_shift_pressed k.caps_toggle && is_alphabet lower)
        (k.is_shift_pressed && not (is_alphabet lower)) _ _ _)

letter_or_sign-typed :
    (s lower upper old : ℕ) (shift caps : Bool)
    → KeyFacts s lower upper
    → letter_or_sign shift caps lower old ≡ typed shift caps (lower, upper)
unfolding xor
letter_or_sign-typed s lower upper old shift caps facts = elim (Bool-cases (is_alphabet lower)) [
  | inl letter ↦ let up = facts.letter letter in rw (letter, up) (ground arith)
  | inr other ↦
      let up = typed_shifted lower upper old (facts.other other) in rw (other, up) (ground arith)
]

-- On every key of the layout the latest character is the one typed, whatever the state of shift, caps
-- lock and num lock.
pub latest_char-typed :
    (beyond : ℕ → ℕ) (k : Keyboard) (s s2 lower upper : ℕ)
    → layout s ≡ some (lower, upper)
    → (keyboard_handler beyond k s s2).latest_char
      ≡ typed k.is_shift_pressed k.caps_toggle (lower, upper)
latest_char-typed beyond k s s2 lower upper e =
    let facts = key_ok-KeyFacts s lower upper (key_facts s lower upper e) in
    handler_letter beyond k s s2 lower upper facts
    ∙ letter_or_sign-typed s lower upper k.latest_char k.is_shift_pressed k.caps_toggle facts
