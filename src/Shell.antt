-- ===== src/Shell.antt =====
-- kernal/kernel/kshell.c: the tokens of a command line, the string helpers and the choice of the
-- command. A C string is the list of its characters up to the 0, and a pointer into it the rest of it.
pub mod Editor
pub mod Commands
pub mod Ball
pub mod Rounds
pub mod Tokens
pub mod Laws
mod Tests
mod Trials
use she_x_mini_operating_sys.Base.{
  ℕ, zero, suc, Bool, true, false, Option, none, some, List, [], ◌∷◌, ◌==◌, if◌then◌else◌,
}

abbrev pub max_token_size : ℕ
max_token_size = 25

abbrev pub space : ℕ
space = 0x20

-- `while (*pointer == ' ') pointer++`.
pub skip_spaces : List ℕ → List ℕ
skip_spaces [] = []
skip_spaces (c ∷ cs) = let rest = skip_spaces cs in if c == space then rest else c ∷ cs

-- `while (*pointer != ' ')`, which returns from the caller at the end of the string, here `none`.
pub skip_word : List ℕ → Option (List ℕ)
skip_word [] = none
skip_word (c ∷ cs) = let rest = skip_word cs in if c == space then some (c ∷ cs) else rest

-- The loop over the tokens before the one that is asked for.
pub skip_tokens : ℕ → List ℕ → Option (List ℕ)
unfolding skip_spaces skip_word
skip_tokens zero p = some p
skip_tokens (suc n) p = elim (skip_word p) [ none ↦ none | some q ↦ skip_tokens n (skip_spaces q) ]

-- The loop that copies into the token buffer, which has been cleared.
pub copy_token : ℕ → List ℕ → List ℕ
copy_token zero p = []
copy_token (suc left) [] = []
copy_token (suc left) (c ∷ cs) =
    let rest = copy_token left cs in if c == space then [] else c ∷ rest

-- `extract_token`: what `_tkn_buffer` holds after it.
pub extract_token : List ℕ → ℕ → List ℕ
unfolding skip_tokens copy_token skip_spaces
extract_token cmd_buffer token_no = elim (skip_tokens token_no (skip_spaces cmd_buffer)) [
  | none ↦ []
  | some p ↦ copy_token max_token_size p
]

pub string_compare : List ℕ → List ℕ → Bool
string_compare [] [] = true
string_compare [] (d ∷ ds) = false
string_compare (c ∷ cs) [] = false
string_compare (c ∷ cs) (d ∷ ds) = let rest = string_compare cs ds in if c == d then rest else false

pub data Command : Type 0 where
  help fresh timer picture ball quote name : Command
  not_found : List ℕ → Command

abbrev pub help_word : List ℕ
help_word = b'h' ∷ b'e' ∷ b'l' ∷ b'p' ∷ []

abbrev pub fresh_word : List ℕ
fresh_word = b'f' ∷ b'r' ∷ b'e' ∷ b's' ∷ b'h' ∷ []

abbrev pub timer_word : List ℕ
timer_word = b't' ∷ b'i' ∷ b'm' ∷ b'e' ∷ b'r' ∷ []

abbrev pub picture_word : List ℕ
picture_word = b'p' ∷ b'i' ∷ b'c' ∷ b't' ∷ b'u' ∷ b'r' ∷ b'e' ∷ []

abbrev pub ball_word : List ℕ
ball_word = b'b' ∷ b'a' ∷ b'l' ∷ b'l' ∷ []

abbrev pub quote_word : List ℕ
quote_word = b'q' ∷ b'u' ∷ b'o' ∷ b't' ∷ b'e' ∷ []

abbrev pub name_word : List ℕ
name_word = b'n' ∷ b'a' ∷ b'm' ∷ b'e' ∷ []

-- The chain of tests of `parse_command`: the command that it calls, or the token that it reports.
abbrev pub command_of : List ℕ → Command
command_of token =
    if string_compare token help_word
    then help
    else if string_compare token fresh_word
    then fresh
    else if string_compare token timer_word
    then timer
    else if string_compare token picture_word
    then picture
    else if string_compare token ball_word
    then ball
    else if string_compare token quote_word
    then quote
    else if string_compare token name_word
    then name
    else not_found token

pub parse_command : List ℕ → Command
unfolding extract_token string_compare
parse_command cmd_buffer = command_of (extract_token cmd_buffer 0)
