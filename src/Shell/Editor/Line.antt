-- ===== src/Shell/Editor/Line.antt =====
-- A line of text with a point in it, as the editor of kernal/kernel/kshell.c is to keep it.
use she_x_mini_operating_sys.Base.{
  ℕ, zero, suc, ◌+◌, ◌-◌, ◌<◌, ◌≤◌, ◌≡◌, refl, ap, List, [], ◌∷◌, ◌++◌, ltb, ◌==◌, if◌then◌else◌,
  length, get_or, set, erase, arith,
}

pub record Line : Type 0 where
  pub letters : List ℕ
  pub point : ℕ

abbrev pub go_left : Line → Line
go_left l = record l { point = l.point - 1 }

abbrev pub go_right : Line → Line
go_right l = if l.point == length l.letters then l else record l { point = l.point + 1 }

-- The letter before the point goes.
abbrev pub remove : Line → Line
remove l =
    if l.point == 0
    then l
    else record { letters = erase l.letters (l.point - 1); point = l.point - 1 }

-- A letter over the one at the point, or behind the last one.
abbrev pub insert : ℕ → Line → Line
insert c l = record {
  letters = if l.point == length l.letters then l.letters ++ c ∷ [] else set l.letters l.point c;
  point = l.point + 1;
}

-- A line that goes on, that Enter ends, or that ends with its 50th letter.
pub data LineStep : Type 0 where
  typing : Line → LineStep
  complete : List ℕ → LineStep
  dropped : LineStep

unfoldable pub line_step : ℕ → Line → LineStep
line_step input l =
    if input == 17
    then typing (go_left l)
    else if input == 18
    then typing (go_right l)
    else if input == 0x08
    then typing (remove l)
    else if input == 0x0a
    then complete l.letters
    else if l.point == 49
    then dropped
    else typing (insert input l)

-- Where a list of keys leads, and the keys behind the end of the line.
pub record LineRead : Type 0 where
  pub outcome : LineStep
  pub remaining : List ℕ

abbrev pub line_after : (Line → LineRead) → List ℕ → LineStep → LineRead
line_after rest inputs (typing l) = rest l
line_after rest inputs (complete letters) = record {
  outcome = complete letters;
  remaining = inputs;
}
line_after rest inputs dropped = record { outcome = dropped; remaining = inputs }

unfoldable pub line_loop : Line → List ℕ → LineRead
line_loop l [] = record { outcome = typing l; remaining = [] }
line_loop l (input ∷ inputs) = line_after (λ l'. line_loop l' inputs) inputs (line_step input l)

pub get_or-append_last :
    (xs : List ℕ) (c j : ℕ)
    → get_or (xs ++ c ∷ []) j 0 ≡ (if j == length xs then c else get_or xs j 0)
get_or-append_last [] c zero = refl
get_or-append_last [] c (suc j) = ground arith
get_or-append_last (x ∷ xs) c zero = ground arith
get_or-append_last (x ∷ xs) c (suc j) = ground (arith, get_or-append_last xs c j)

pub get_or-erase :
    (xs : List ℕ) (k j : ℕ)
    → get_or (erase xs k) j 0 ≡ (if ltb j k then get_or xs j 0 else get_or xs (suc j) 0)
get_or-erase [] k j = ground arith
get_or-erase (x ∷ xs) zero j = ground arith
get_or-erase (x ∷ xs) (suc k) zero = ground arith
get_or-erase (x ∷ xs) (suc k) (suc j) = ground (arith, get_or-erase xs k j)

pub length-erase : (xs : List ℕ) (k : ℕ) → k < length xs → suc (length (erase xs k)) ≡ length xs
length-erase [] k h = absurd (omega arith)
length-erase (x ∷ xs) zero h = refl
length-erase (x ∷ xs) (suc k) h = ap suc (length-erase xs k (omega arith))

pub get_or_beyond : (xs : List ℕ) (j : ℕ) → length xs ≤ j → get_or xs j 0 ≡ 0
get_or_beyond [] j h = refl
get_or_beyond (x ∷ xs) zero h = absurd (omega arith)
get_or_beyond (x ∷ xs) (suc j) h = get_or_beyond xs j (omega arith)
