-- ===== src/Shell/Commands/Laws.antt =====
-- The colours and the name of the shell of kernal/kernel/kshell.c.
use she_x_mini_operating_sys.Base.{
  ℕ, zero, suc, ◌+◌, ◌*◌, ◌<◌, ◌≡◌, inl, inr, refl, ap, ◌∙◌, true, false, Bool-cases, List, [], ◌∷◌,
  ◌++◌, ◌==◌, arith, replicate,
}
use Prim.Native.String.{String}
use she_x_mini_operating_sys.Console.{
  Console, monitor_puts, putc, set_cursor, set_fg_color, set_bg_color,
}
use she_x_mini_operating_sys.Console.Laws.{set_color_lem}
use she_x_mini_operating_sys.Shell.{string_compare, help_word, space}
use she_x_mini_operating_sys.Shell.Tokens.{
  Gapped, line, words_ok, nth_word, cut, extract_token-line,
}
use she_x_mini_operating_sys.Shell.Commands.{
  Session, bytes, pick_color, color_names, puts_all, put_spaces, repaint, command_fresh,
}

monitor_puts-paint :
    (message : List ℕ) (c : Console) → (monitor_puts message c).current_color ≡ c.current_color
unfolding monitor_puts
monitor_puts-paint message c = refl

putc-paint : (input : ℕ) (c : Console) → (putc input c).current_color ≡ c.current_color
unfolding putc
putc-paint input c = elim (Bool-cases (input == 0x08)) [
  | inl back ↦
      rw back
        (elim (Bool-cases (c.cursor == 0)) [ inl home ↦ rw home refl | inr away ↦ rw away refl ])
  | inr other ↦ rw other (elim (Bool-cases (input == 0x0a)) [
    | inl next ↦ rw next (monitor_puts-paint (0x0a ∷ []) c)
    | inr glyph ↦ rw glyph refl
  ])
]

put_spaces-paint : (n : ℕ) (c : Console) → (put_spaces n c).current_color ≡ c.current_color
unfolding put_spaces
put_spaces-paint zero c = refl
put_spaces-paint (suc n) c = put_spaces-paint n (putc b' ' c) ∙ putc-paint b' ' c

puts_all-paint :
    (messages : List String) (c : Console) → (puts_all messages c).current_color ≡ c.current_color
unfolding puts_all
puts_all-paint [] c = refl
puts_all-paint (m ∷ messages) c =
    puts_all-paint messages (monitor_puts (bytes m) c) ∙ monitor_puts-paint (bytes m) c

-- The names of the colours and their numbers in kernal/include/dadio.h.
pub data ColorName : List ℕ → ℕ → Type 0 where
  black : ColorName (bytes "black") 0
  blue : ColorName (bytes "blue") 1
  green : ColorName (bytes "green") 2
  cyan : ColorName (bytes "cyan") 3
  red : ColorName (bytes "red") 4
  magenta : ColorName (bytes "magenta") 5
  brown : ColorName (bytes "brown") 6
  light_grey : ColorName (bytes "light_grey") 7
  dark_grey : ColorName (bytes "dark_grey") 8
  light_blue : ColorName (bytes "light_blue") 9
  light_green : ColorName (bytes "light_green") 10
  light_cyan : ColorName (bytes "light_cyan") 11
  light_red : ColorName (bytes "light_red") 12
  light_magenta : ColorName (bytes "light_magenta") 13
  light_brown : ColorName (bytes "light_brown") 14
  white : ColorName (bytes "white") 15

-- What a name does as a token.
Picks : List ℕ → ℕ → ℕ → Type 0
Picks w number color =
    (pick_color color_names (cut 25 w) color ≡ number)
    × (string_compare (cut 25 w) help_word ≡ false)
    × (number < 16)

ColorName-Picks : (w : List ℕ) (number color : ℕ) → ColorName w number → Picks w number color
unfolding Picks pick_color bytes string_compare
ColorName-Picks w number color ColorName.black = (refl, refl, omega arith)
ColorName-Picks w number color ColorName.blue = (refl, refl, omega arith)
ColorName-Picks w number color ColorName.green = (refl, refl, omega arith)
ColorName-Picks w number color ColorName.cyan = (refl, refl, omega arith)
ColorName-Picks w number color ColorName.red = (refl, refl, omega arith)
ColorName-Picks w number color ColorName.magenta = (refl, refl, omega arith)
ColorName-Picks w number color ColorName.brown = (refl, refl, omega arith)
ColorName-Picks w number color ColorName.light_grey = (refl, refl, omega arith)
ColorName-Picks w number color ColorName.dark_grey = (refl, refl, omega arith)
ColorName-Picks w number color ColorName.light_blue = (refl, refl, omega arith)
ColorName-Picks w number color ColorName.light_green = (refl, refl, omega arith)
ColorName-Picks w number color ColorName.light_cyan = (refl, refl, omega arith)
ColorName-Picks w number color ColorName.light_red = (refl, refl, omega arith)
ColorName-Picks w number color ColorName.light_magenta = (refl, refl, omega arith)
ColorName-Picks w number color ColorName.light_brown = (refl, refl, omega arith)
ColorName-Picks w number color ColorName.white = (refl, refl, omega arith)

repaint_paint :
    (clear : Console → Console) (a b : ℕ) (c : Console)
    → ((d : Console) → (clear d).current_color ≡ d.current_color)
    → a < 16
    → b < 16
    → c.current_color < 256
    → (repaint clear a b c).current_color ≡ 16 * b + a
repaint_paint clear a b c keeps ha hb byte =
    let both : (f g : ℕ) (d : Console)
        → d.current_color < 256
        → f < 16
        → g < 16
        → (set_bg_color g (set_fg_color f d)).current_color ≡ 16 * g + f =
      λ f g d h hf hg. let (e, e') = set_color_lem f g d h hf hg in e in
    let cleared : Console = clear (set_bg_color b (set_fg_color a c)) in
    let kept : cleared.current_color ≡ 16 * b + a = keeps _ ∙ both a b c byte ha hb in
    let turned : (set_bg_color a (set_fg_color b cleared)).current_color ≡ 16 * a + b =
      both b a cleared (omega arith) hb ha in
    let bar : Console = put_spaces 80 (set_bg_color a (set_fg_color b cleared)) in
    let spaced : bar.current_color ≡ 16 * a + b =
      put_spaces-paint 80 (set_bg_color a (set_fg_color b cleared)) ∙ turned in
    let title : List ℕ = bytes "KSOS KERNEL SHELL 0.01 (help displays commands)" in
    let shown : (monitor_puts title (set_cursor 20 bar)).current_color ≡ 16 * a + b =
      monitor_puts-paint title (set_cursor 20 bar) ∙ spaced in
    both a b (monitor_puts title (set_cursor 20 bar)) (omega arith) ha hb

-- The static variables after `fresh` with the names of two colours.
pub command_fresh_colors :
    (clear : Console → Console) (k : ℕ) (gs : List Gapped) (last : List ℕ) (a b : ℕ) (s : Session)
    → words_ok gs last ≡ true
    → ColorName (nth_word gs last 1) a
    → ColorName (nth_word gs last 2) b
    → let r = command_fresh clear (replicate k space ++ line gs last) s in
      (r.color_0 ≡ a) × (r.color_1 ≡ b) × (r.shell_name ≡ s.shell_name) × (r.ports ≡ s.ports)
unfolding command_fresh Picks
command_fresh_colors clear k gs last a b s ok first second =
    let (pick_1, help_1, small_1) = ColorName-Picks _ a s.color_0 first in
    let (pick_2, help_2, small_2) = ColorName-Picks _ b s.color_1 second in
    rw (extract_token-line k 1 gs last ok, help_1, extract_token-line k 2 gs last ok, help_2)
      (pick_1, pick_2, refl, refl)

-- `fresh` with the names of two colours as its next words, whatever spaces stand around them, makes them
-- the colours of the shell, and leaves the console with the first as its foreground and the second as
-- its background; the name of the shell and the timer stay. The colour byte is below 256 before, and
-- the missing `clear` keeps it.
pub command_fresh_lem :
    (clear : Console → Console) (k : ℕ) (gs : List Gapped) (last : List ℕ) (a b : ℕ) (s : Session)
    → ((d : Console) → (clear d).current_color ≡ d.current_color)
    → words_ok gs last ≡ true
    → ColorName (nth_word gs last 1) a
    → ColorName (nth_word gs last 2) b
    → s.console.current_color < 256
    → let r = command_fresh clear (replicate k space ++ line gs last) s in
      (r.color_0 ≡ a)
      × (r.color_1 ≡ b)
      × (r.console.current_color ≡ 16 * b + a)
      × (r.shell_name ≡ s.shell_name)
      × (r.ports ≡ s.ports)
unfolding command_fresh Picks
command_fresh_lem clear k gs last a b s keeps ok first second byte =
    let (pick_1, help_1, small_1) = ColorName-Picks _ a s.color_0 first in
    let (pick_2, help_2, small_2) = ColorName-Picks _ b s.color_1 second in
    rw (extract_token-line k 1 gs last ok, help_1, extract_token-line k 2 gs last ok, help_2)
      (
        pick_1,
        pick_2,
        ap
              (λ (x : ℕ).
                (repaint clear x (pick_color color_names (cut 25 (nth_word gs last 2)) s.color_1)
                  s.console).current_color)
              pick_1
            ∙ ap (λ (x : ℕ). (repaint clear a x s.console).current_color) pick_2
            ∙ repaint_paint clear a b s.console keeps small_1 small_2 byte,
        refl,
        refl,
      )
