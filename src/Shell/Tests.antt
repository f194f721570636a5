-- ===== src/Shell/Tests.antt =====
-- Command lines of kernal/kernel/kshell.c, and the theorems on them.
use she_x_mini_operating_sys.Base.{ℕ, ◌≡◌, ◌≢◌, refl, List, [], ◌∷◌, ◌++◌, replicate}
use she_x_mini_operating_sys.Shell.{
  extract_token, skip_tokens, skip_spaces, skip_word, copy_token, space, Command, parse_command,
  timer_word,
}
use she_x_mini_operating_sys.Shell.Tokens.{Gapped, line, cut, extract_token-line}
use she_x_mini_operating_sys.Shell.Laws.{Names, parse_command_lem}

abbrev fast_word : List ℕ
fast_word = b'f' ∷ b'a' ∷ b's' ∷ b't' ∷ []

-- `timer`, three spaces, `fast`.
abbrev gapped_timer : List Gapped
gapped_timer = record { first = b't'; others = b'i' ∷ b'm' ∷ b'e' ∷ b'r' ∷ []; more = 2 } ∷ []

second_token : extract_token (line gapped_timer fast_word) 1 ≡ fast_word
unfolding extract_token skip_tokens skip_spaces skip_word copy_token
second_token = refl

extract_token-line_example :
    extract_token (replicate 2 space ++ line gapped_timer fast_word) 1 ≡ cut 25 fast_word
extract_token-line_example = extract_token-line 2 1 gapped_timer fast_word refl

parse_command_lem_example :
    ((c : Command)
      → Names timer_word c
      → parse_command (replicate 2 space ++ line gapped_timer fast_word) ≡ c)
    × (((w : List ℕ) (c : Command) → Names w c → timer_word ≢ w)
        → parse_command (replicate 2 space ++ line gapped_timer fast_word)
          ≡ Command.not_found timer_word)
parse_command_lem_example = parse_command_lem 2 gapped_timer fast_word refl
