-- ===== src/Shell/Laws.antt =====
-- The string comparison of kernal/kernel/kshell.c, and the command that it leads to.
use she_x_mini_operating_sys.Base.{
  ℕ, ◌≡◌, ◌≢◌, refl, ap, sym, ◌∙◌, true, false, ◌↔◌, List, [], ◌∷◌, ◌++◌, ◌==◌, replicate, arith,
  Bool-cases, inl, inr, ==→eq,
}
use she_x_mini_operating_sys.Shell.{
  space, string_compare, Command, command_of, parse_command, help_word, fresh_word, timer_word,
  picture_word, ball_word, quote_word, name_word,
}
use she_x_mini_operating_sys.Shell.Tokens.{
  Gapped, line, words_ok, nth_word, cut, extract_token-line,
}

same_strings : (xs ys : List ℕ) → string_compare xs ys ≡ true → xs ≡ ys
unfolding string_compare
same_strings [] [] h = refl
same_strings [] (d ∷ ds) h = absurd (cc)
same_strings (c ∷ cs) [] h = absurd (cc)
same_strings (c ∷ cs) (d ∷ ds) h = elim (Bool-cases (c == d)) [
  | inl e ↦
      let head : c ≡ d = ==→eq c d e in
      let tail : cs ≡ ds = same_strings cs ds (ground arith) in rw (head, tail)
  | inr e ↦ absurd (ground arith)
]

string_compare_self : (xs : List ℕ) → string_compare xs xs ≡ true
unfolding string_compare
string_compare_self [] = refl
string_compare_self (c ∷ cs) =
    let e : (c == c) ≡ true = ground arith in rw e (string_compare_self cs)

-- `string_compare` holds of equal strings and of no others.
pub string_compare_lem : (xs ys : List ℕ) → (string_compare xs ys ≡ true) ↔ (xs ≡ ys)
string_compare_lem xs ys =
    (same_strings xs ys, λ e. ap (λ zs. string_compare xs zs) (sym e) ∙ string_compare_self xs)

-- The names of the commands.
pub data Names : List ℕ → Command → Type 0 where
  help : Names help_word Command.help
  fresh : Names fresh_word Command.fresh
  timer : Names timer_word Command.timer
  picture : Names picture_word Command.picture
  ball : Names ball_word Command.ball
  quote : Names quote_word Command.quote
  name : Names name_word Command.name

named : (w : List ℕ) (c : Command) → Names w c → command_of (cut 25 w) ≡ c
unfolding string_compare
named w c Names.help = refl
named w c Names.fresh = refl
named w c Names.timer = refl
named w c Names.picture = refl
named w c Names.ball = refl
named w c Names.quote = refl
named w c Names.name = refl

pub differs : (xs ys : List ℕ) → xs ≢ ys → string_compare xs ys ≡ false
differs xs ys h = elim (Bool-cases (string_compare xs ys)) [
  | inl e ↦ absurd (h (same_strings xs ys e))
  | inr e ↦ e
]

unnamed :
    (t : List ℕ)
    → ((w : List ℕ) (c : Command) → Names w c → t ≢ w)
    → command_of t ≡ Command.not_found t
unnamed t h = rw (
  differs t help_word (h help_word Command.help Names.help),
  differs t fresh_word (h fresh_word Command.fresh Names.fresh),
  differs t timer_word (h timer_word Command.timer Names.timer),
  differs t picture_word (h picture_word Command.picture Names.picture),
  differs t ball_word (h ball_word Command.ball Names.ball),
  differs t quote_word (h quote_word Command.quote Names.quote),
  differs t name_word (h name_word Command.name Names.name),
)

-- A line whose first word is the name of a command runs that command, whatever spaces and words stand
-- around it; with a first word whose first 25 characters are no name, these characters are reported.
pub parse_command_lem :
    (k : ℕ) (gs : List Gapped) (last : List ℕ)
    → words_ok gs last ≡ true
    → ((c : Command)
        → Names (nth_word gs last 0) c
        → parse_command (replicate k space ++ line gs last) ≡ c)
      × (((w : List ℕ) (c : Command) → Names w c → cut 25 (nth_word gs last 0) ≢ w)
          → parse_command (replicate k space ++ line gs last)
            ≡ Command.not_found (cut 25 (nth_word gs last 0)))
unfolding parse_command
parse_command_lem k gs last h =
    let token = ap command_of (extract_token-line k 0 gs last h) in
    (λ c known. token ∙ named _ c known, λ unknown. token ∙ unnamed _ unknown)
