-- ===== src/Shell/Tokens.antt =====
-- Command lines made of words, and what `extract_token` of kernal/kernel/kshell.c finds in them.
use she_x_mini_operating_sys.Base.{
  ℕ, zero, suc, ◌≡◌, refl, ap, ◌∙◌, Bool, true, false, ◌&&◌, not, Option, none, some, List, [], ◌∷◌,
  ◌++◌, ◌==◌, replicate, arith,
}
use she_x_mini_operating_sys.Shell.{
  skip_spaces, skip_word, skip_tokens, copy_token, extract_token, space, max_token_size,
}

abbrev pub is_word : List ℕ → Bool
is_word [] = true
is_word (c ∷ cs) = not (c == space) && is_word cs

-- A word that is not empty, and how many spaces more than one follow it.
pub record Gapped : Type 0 where
  pub first : ℕ
  pub others : List ℕ
  pub more : ℕ

abbrev pub word_of : Gapped → List ℕ
word_of g = g.first ∷ g.others

-- The text of words with their gaps, and a last word, which may be empty.
abbrev pub line : List Gapped → List ℕ → List ℕ
line [] last = last
line (g ∷ gs) last = word_of g ++ (replicate (suc g.more) space ++ line gs last)

abbrev pub words_ok : List Gapped → List ℕ → Bool
words_ok [] last = is_word last
words_ok (g ∷ gs) last = is_word (word_of g) && words_ok gs last

abbrev pub nth_word : List Gapped → List ℕ → ℕ → List ℕ
nth_word [] last zero = last
nth_word [] last (suc n) = []
nth_word (g ∷ gs) last zero = word_of g
nth_word (g ∷ gs) last (suc n) = nth_word gs last n

abbrev pub cut : ℕ → List ℕ → List ℕ
cut zero xs = []
cut (suc n) [] = []
cut (suc n) (x ∷ xs) = x ∷ cut n xs

and_left : (a b : Bool) → (a && b) ≡ true → a ≡ true
and_left true b h = refl
and_left false b h = h

and_right : (a b : Bool) → (a && b) ≡ true → b ≡ true
and_right true b h = h
and_right false b h = absurd (cc)

skip_spaces-replicate : (k : ℕ) (p : List ℕ) → skip_spaces (replicate k space ++ p) ≡ skip_spaces p
unfolding skip_spaces
skip_spaces-replicate zero p = refl
skip_spaces-replicate (suc k) p = skip_spaces-replicate k p

-- A line of words has no space in front.
skip_spaces-line :
    (gs : List Gapped) (last : List ℕ)
    → words_ok gs last ≡ true
    → skip_spaces (line gs last) ≡ line gs last
unfolding skip_spaces
skip_spaces-line [] [] h = refl
skip_spaces-line [] (c ∷ cs) h = let e : (c == space) ≡ false = ground arith in rw e
skip_spaces-line (g ∷ gs) last h = let e : (g.first == space) ≡ false = ground arith in rw e

skip_word_gap :
    (w : List ℕ) (k : ℕ) (p : List ℕ)
    → is_word w ≡ true
    → skip_word (w ++ (replicate (suc k) space ++ p)) ≡ some (replicate (suc k) space ++ p)
unfolding skip_word
skip_word_gap [] k p h = refl
skip_word_gap (c ∷ cs) k p h =
    let e : (c == space) ≡ false = ground arith in rw e (skip_word_gap cs k p (ground arith))

skip_word_end : (w : List ℕ) → is_word w ≡ true → skip_word w ≡ none
unfolding skip_word
skip_word_end [] h = refl
skip_word_end (c ∷ cs) h =
    let e : (c == space) ≡ false = ground arith in rw e (skip_word_end cs (ground arith))

copy_token_gap :
    (left : ℕ) (w : List ℕ) (k : ℕ) (p : List ℕ)
    → is_word w ≡ true
    → copy_token left (w ++ (replicate (suc k) space ++ p)) ≡ cut left w
unfolding copy_token
copy_token_gap zero w k p h = refl
copy_token_gap (suc left) [] k p h = refl
copy_token_gap (suc left) (c ∷ cs) k p h =
    let e : (c == space) ≡ false = ground arith in
    rw e (ap (λ xs. c ∷ xs) (copy_token_gap left cs k p (ground arith)))

copy_token_end : (left : ℕ) (w : List ℕ) → is_word w ≡ true → copy_token left w ≡ cut left w
unfolding copy_token
copy_token_end zero w h = refl
copy_token_end (suc left) [] h = refl
copy_token_end (suc left) (c ∷ cs) h =
    let e : (c == space) ≡ false = ground arith in
    rw e (ap (λ xs. c ∷ xs) (copy_token_end left cs (ground arith)))

abbrev token_at : Option (List ℕ) → List ℕ
token_at o = elim o [ none ↦ [] | some p ↦ copy_token max_token_size p ]

skip_tokens-nth :
    (n : ℕ) (gs : List Gapped) (last : List ℕ)
    → words_ok gs last ≡ true
    → token_at (skip_tokens n (line gs last)) ≡ cut max_token_size (nth_word gs last n)
unfolding skip_tokens
skip_tokens-nth zero [] last h = copy_token_end max_token_size last h
skip_tokens-nth zero (g ∷ gs) last h =
    copy_token_gap max_token_size (word_of g) g.more (line gs last) (and_left _ _ h)
skip_tokens-nth (suc n) [] last h = rw (skip_word_end last h, token_at, skip_tokens)
skip_tokens-nth (suc n) (g ∷ gs) last h =
    let rest : words_ok gs last ≡ true = and_right (is_word (word_of g)) _ h in
    rw (skip_word_gap (word_of g) g.more (line gs last) (and_left _ _ h), token_at, skip_tokens)
      (ap (λ p. token_at (skip_tokens n p))
          (skip_spaces-replicate (suc g.more) (line gs last) ∙ skip_spaces-line gs last rest)
        ∙ skip_tokens-nth n gs last rest)

-- Token `n` of a line is its word `n`, counted from 0 and cut to 25 characters, or empty where the line
-- has no such word, however many spaces stand before and between the words.
pub extract_token-line :
    (k n : ℕ) (gs : List Gapped) (last : List ℕ)
    → words_ok gs last ≡ true
    → extract_token (replicate k space ++ line gs last) n ≡ cut 25 (nth_word gs last n)
unfolding extract_token
extract_token-line k n gs last h =
    ap (λ p. token_at (skip_tokens n p))
      (skip_spaces-replicate k (line gs last) ∙ skip_spaces-line gs last h)
    ∙ skip_tokens-nth n gs last h
