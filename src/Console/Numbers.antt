-- ===== src/Console/Numbers.antt =====
-- What `printhex` and `printint` of kernal/driver/dadio.c put on the screen.
use native.Mathlib.Nat.{
  pow-suc, one-le-pow, pow-le-pow_right, div-eq_of_lt, le-div_iff_mul-le, div-lt_iff_lt-mul,
  div-div-eq-div-mul,
}
use she_x_mini_operating_sys.Base.{
  ℕ, zero, suc, ◌+◌, ◌-◌, ◌/◌, ◌%◌, ◌^◌, ◌<◌, ◌≤◌, ◌≡◌, ◌≢◌, ◌⊎◌, refl, sym, ap, ◌∙◌, false,
  Bool-cases, inl, inr, List, [], ◌∷◌, ◌++◌, ◌==◌, if◌then◌else◌, update, bit_and, ◌>>>◌, arith,
  Bool, true, get_or, ==→eq,
}
use she_x_mini_operating_sys.Base.Masks.{bit_and_low}
use she_x_mini_operating_sys.Base.Check.{passes_below, passes}
use she_x_mini_operating_sys.Console.{
  c_string, chars, hex_char, hex_loop, skip_loop, hex_end, hex_string, int_loop, int_string,
}

-- The last `n` decimal digits of a number, as characters.
abbrev pub decimal : ℕ → ℕ → List ℕ
decimal zero x = []
decimal (suc n) x = decimal n (x / 10) ++ (x % 10 + 0x30) ∷ []

append_one : (xs : List ℕ) (c : ℕ) (ys : List ℕ) → (xs ++ c ∷ []) ++ ys ≡ xs ++ (c ∷ ys)
append_one [] c ys = refl
append_one (x ∷ xs) c ys = ap (λ zs. x ∷ zs) (append_one xs c ys)

c_string-decimal :
    (n x : ℕ) (ys : List ℕ) → c_string (decimal n x ++ ys) ≡ decimal n x ++ c_string ys
unfolding c_string
c_string-decimal zero x ys = refl
c_string-decimal (suc n) x ys =
    let c : ℕ = x % 10 + 0x30 in
    let ink : (c == 0) ≡ false = ground arith in
    ap c_string (append_one (decimal n (x / 10)) c ys)
    ∙ c_string-decimal n (x / 10) (c ∷ ys)
    ∙ ap (λ zs. decimal n (x / 10) ++ zs) (rw ink)
    ∙ sym (append_one (decimal n (x / 10)) c (c_string ys))

-- `printint` prints a 0, the ten decimal digits, and then what stands in memory behind its array, whose
-- last byte a digit has taken, up to the first 0 there.
pub int_string_lem :
    (beyond : List ℕ) (x : ℕ) → int_string beyond x ≡ b'0' ∷ decimal 10 x ++ c_string beyond
unfolding int_string int_loop c_string
int_string_lem beyond x = ap (λ zs. b'0' ∷ zs) (c_string-decimal 10 x beyond)

-- The sixteen hexadecimal digits.
abbrev hex_digits : List ℕ
hex_digits =
    b'0' ∷ b'1' ∷ b'2' ∷ b'3' ∷ b'4' ∷ b'5' ∷ b'6' ∷ b'7' ∷ b'8' ∷ b'9' ∷ b'A' ∷ b'B' ∷ b'C' ∷ b'D'
    ∷ b'E' ∷ b'F' ∷ []

abbrev pub hex_digit : ℕ → ℕ
hex_digit v = get_or hex_digits v 0

abbrev same_digit : ℕ → Bool
same_digit v = hex_char v == hex_digit v

digits_table : passes_below same_digit 16 ≡ true
unfolding passes_below
digits_table = refl

-- The code's arithmetic on a digit agrees with the table.
hex_char-hex_digit : (v : ℕ) → hex_char (v % 16) ≡ hex_digit (v % 16)
hex_char-hex_digit v = ==→eq _ _ (passes same_digit 16 digits_table (v % 16) (omega arith))

-- The last `d` hexadecimal digits of a number.
abbrev pub hexadecimal : ℕ → ℕ → List ℕ
hexadecimal zero x = []
hexadecimal (suc d) x = hex_digit (x / 16 ^ d % 16) ∷ hexadecimal d x

hex_loop_outside :
    (n p x : ℕ) (buffer : ℕ → ℕ) (i : ℕ)
    → n ≤ p
    → (p < i) ⊎ (i + n ≤ p)
    → hex_loop n p x buffer i ≡ buffer i
unfolding hex_loop
hex_loop_outside zero p x buffer i h out = refl
hex_loop_outside (suc n) p x buffer i h out =
    hex_loop_outside n (p - 1) (x >>> 4) _ i (omega arith) (ground arith) ∙ ground arith

-- The digit that stands `k` places before the last.
hex_loop_digit :
    (n p x : ℕ) (buffer : ℕ → ℕ) (k : ℕ)
    → n ≤ p
    → k < n
    → hex_loop n p x buffer (p - k) ≡ hex_char (x / 16 ^ k % 16)
unfolding hex_loop
hex_loop_digit zero p x buffer k h l = absurd (omega arith)
hex_loop_digit (suc n) p x buffer zero h l =
    let last : bit_and x 0xf ≡ x % 16 = bit_and_low 4 x in
    let place : p - 0 ≡ p = omega arith in
    rw place (
      hex_loop_outside n (p - 1) (x >>> 4) _ p (omega arith) (inl (omega arith))
      ∙ rw last (ground arith))
hex_loop_digit (suc n) p x buffer (suc k) h l =
    let place : p - suc k ≡ p - 1 - k = omega arith in
    let digit : x / 16 / 16 ^ k ≡ x / 16 ^ suc k =
      div-div-eq-div-mul x 16 (16 ^ k) ∙ rw (pow-suc 16 k) (ap (λ t. x / t) (omega arith)) in
    rw place (
      hex_loop_digit n (p - 1) (x >>> 4) _ k (omega arith) (omega arith)
      ∙ ap (λ y. hex_char (y % 16)) digit)

-- The loop stops at the first index whose character is no `0`, or at its end.
skip_loop_lem :
    (left p q : ℕ) (buffer : ℕ → ℕ)
    → p ≤ q
    → q ≤ p + left
    → ((i : ℕ) → p ≤ i → i < q → buffer i ≡ b'0')
    → (q ≡ p + left) ⊎ (buffer q ≢ b'0')
    → skip_loop left p buffer ≡ q
unfolding skip_loop
skip_loop_lem zero p q buffer h l zeros stop = omega arith
skip_loop_lem (suc left) p q buffer h l zeros stop = elim (Bool-cases (buffer p == b'0')) [
  | inl zero_here ↦ rw zero_here (
      skip_loop_lem left (suc p) q buffer (ground (arith, stop)) (omega arith)
        (λ i a b. zeros i (omega arith) b) (ground (arith, stop)))
  | inr other ↦ rw other (ground (arith, zeros p (omega arith)))
]

-- The digits from an index on, up to the 0 at index 10.
chars-hexadecimal :
    (d i x : ℕ) (buffer : ℕ → ℕ) (fuel : ℕ)
    → i + d ≡ 10
    → d < fuel
    → ((k : ℕ) → k < d → buffer (9 - k) ≡ hex_char (x / 16 ^ k % 16))
    → buffer 10 ≡ 0
    → chars fuel buffer i ≡ hexadecimal d x
unfolding chars
chars-hexadecimal d i x buffer zero place more ink end = absurd (omega arith)
chars-hexadecimal zero i x buffer (suc fuel) place more ink end =
    let here : i ≡ 10 = omega arith in rw (here, end)
chars-hexadecimal (suc d) i x buffer (suc fuel) place more ink end =
    let index : 9 - d ≡ i = omega arith in
    let here : buffer i ≡ hex_char (x / 16 ^ d % 16) =
      ap buffer (sym index) ∙ ink d (omega arith) in
    let shown : (hex_char (x / 16 ^ d % 16) == 0) ≡ false = ground arith in
    rw (here, shown)
      (ap (λ (c : ℕ). c ∷ chars fuel buffer (suc i)) (hex_char-hex_digit (x / 16 ^ d))
        ∙ ap (λ ys. hex_digit (x / 16 ^ d % 16) ∷ ys)
            (chars-hexadecimal d (suc i) x buffer fuel (omega arith) (omega arith)
              (λ k l. ink k (omega arith)) end))

-- A number's digits above its length are 0, and the first one within it is not, unless it is the only one.
abbrev pub HasDigits : ℕ → ℕ → Type 0
HasDigits d x = (x < 16 ^ d) × ((d ≡ 1) ⊎ (16 ^ (d - 1) ≤ x))

div-pow_small : (d k x : ℕ) → x < 16 ^ d → d ≤ k → x / 16 ^ k ≡ 0
div-pow_small d k x h l =
    div-eq_of_lt (omega (arith, pow-le-pow_right {n = 16} (omega arith) {i = d} {j = k} l))

first_digit : (m x : ℕ) → 16 ^ m ≤ x → x < 16 ^ suc m → hex_char (x / 16 ^ m % 16) ≢ b'0'
first_digit m x low high =
    let some_room : 0 < 16 ^ m = one-le-pow m 16 (omega arith) in
    let (of_div, to_div) = le-div_iff_mul-le {k = 16 ^ m} {x = 1} {y = x} some_room in
    let (of_lt, to_lt) = div-lt_iff_lt-mul {k = 16 ^ m} {x = x} {y = 16} some_room in
    let least : 1 ≤ x / 16 ^ m = to_div (omega arith) in
    let most : x / 16 ^ m < 16 = to_lt (omega (arith, pow-suc 16 m)) in ground arith

leading_zero :
    (buffer : ℕ → ℕ) (d x i : ℕ) → x < 16 ^ d → 2 ≤ i → i + d < 10 → hex_loop 8 9 x buffer i ≡ b'0'
leading_zero buffer d x i small a b =
    let place : 9 - (9 - i) ≡ i = omega arith in
    let nothing : x / 16 ^ (9 - i) ≡ 0 = div-pow_small d (9 - i) x small (omega arith) in
    ap (hex_loop 8 9 x buffer) (sym place)
    ∙ hex_loop_digit 8 9 x buffer (9 - i) (omega arith) (omega arith)
    ∙ ap (λ y. hex_char (y % 16)) nothing

-- The place of the first digit, after which `x` is put.
skip_loop-HasDigits :
    (buffer : ℕ → ℕ) (d x : ℕ)
    → 1 ≤ d
    → d ≤ 8
    → HasDigits d x
    → skip_loop 7 2 (hex_loop 8 9 x buffer) ≡ 10 - d
skip_loop-HasDigits buffer d x low high (small, first) =
    let digit : (k : ℕ) → k < 8 → hex_loop 8 9 x buffer (9 - k) ≡ hex_char (x / 16 ^ k % 16) =
      λ k l. hex_loop_digit 8 9 x buffer k (omega arith) l in
    let stop_at : (d ≡ 1) ⊎ (16 ^ (d - 1) ≤ x)
        → (10 - d ≡ 9) ⊎ (hex_loop 8 9 x buffer (10 - d) ≢ b'0') =
      λ o. elim o [
        | inl one ↦ inl (omega arith)
        | inr more ↦
            let place : 9 - (d - 1) ≡ 10 - d = omega arith in
            let size : suc (d - 1) ≡ d = omega arith in
            inr (λ e.
              first_digit (d - 1) x more (rw size small)
                (sym (digit (d - 1) (omega arith)) ∙ ap (hex_loop 8 9 x buffer) place ∙ e))
      ] in
    skip_loop_lem 7 2 (10 - d) (hex_loop 8 9 x buffer) (omega arith) (omega arith)
      (λ i a b. leading_zero buffer d x i small a (omega arith)) (stop_at first)

-- The character in front of the `x`: with seven digits what the array held before.
abbrev pub lead : (ℕ → ℕ) → ℕ → ℕ
lead buffer d = if d == 7 then buffer 1 else b'0'

-- `printhex` of a number of `d` hexadecimal digits, the first of them not 0 unless it is the only one,
-- prints `0x` and these digits, for `d` from 1 to 8 but 7. With seven digits the character in front of
-- the `x` is the byte that the array held there before, and nothing is printed when this byte is 0.
pub hex_string_lem :
    (buffer : ℕ → ℕ) (d x : ℕ)
    → 1 ≤ d
    → d ≤ 8
    → HasDigits d x
    → hex_string buffer x
      ≡ (if lead buffer d == 0 then [] else lead buffer d ∷ b'x' ∷ hexadecimal d x)
unfolding hex_string chars
hex_string_lem buffer d x low high long =
    let digits : ℕ → ℕ = hex_loop 8 9 x buffer in
    let digit : (k : ℕ) → k < 8 → digits (9 - k) ≡ hex_char (x / 16 ^ k % 16) =
      λ k l. hex_loop_digit 8 9 x buffer k (omega arith) l in
    let out : ℕ → ℕ = update (update (update digits (10 - d - 1) b'x') 0 b'0') 10 0 in
    let (small, first) = long in
    let front : out (10 - d - 1 - 1) ≡ lead buffer d = elim (Bool-cases (d == 7)) [
      | inl seven ↦
          ground (arith, hex_loop_outside 8 9 x buffer 1 (omega arith) (inr (omega arith)))
      | inr other ↦ ground (
        arith,
        λ (a : 2 ≤ 10 - d - 1 - 1). leading_zero buffer d x (10 - d - 1 - 1) small a (omega arith),
      )
    ] in
    let mark : out (suc (10 - d - 1 - 1)) ≡ b'x' = ground arith in
    let rest : chars 9 out (suc (suc (10 - d - 1 - 1))) ≡ hexadecimal d x =
      chars-hexadecimal d (suc (suc (10 - d - 1 - 1))) x out 9 (omega arith) (omega arith)
        (λ k l. ground (arith, digit k (omega arith))) refl in
    ap (λ q. hex_end q digits) (skip_loop-HasDigits buffer d x low high long)
    ∙ rw (front, mark, rest) refl
