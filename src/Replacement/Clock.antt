-- ===== src/Replacement/Clock.antt =====
-- The turns of the hand of CLOCK in kernal/include/PageReplacementAlgorithms.h.
use she_x_mini_operating_sys.Base.{
  ℕ, zero, suc, ◌<◌, ◌≤◌, ◌≡◌, ◌⊎◌, refl, sym, ap, ◌∙◌, Bool, true, false, Bool-cases, inl, inr,
  some, List, [], ◌∷◌, ltb, leb, if◌then◌else◌, length, get_or, set, length-set, arith,
}
use she_x_mini_operating_sys.Replacement.{
  Page, blank, turn_clock, number_of_memory_frames, reset_reference,
}
use she_x_mini_operating_sys.Replacement.Service.{Cleared}

-- How many pages have their reference bit set.
pub references : List Page → ℕ
references [] = 0
references (p ∷ ps) = if p.referenced then suc (references ps) else references ps

pub references-le : (ps : List Page) → references ps ≤ length ps
unfolding references
references-le [] = omega arith
references-le (p ∷ ps) = let h = references-le ps in ground arith

shift :
    {a b : ℕ} (on : Bool) → suc a ≡ b → suc (if on then suc a else a) ≡ (if on then suc b else b)
shift true e = ap suc e
shift false e = e

references-reset :
    (ps : List Page) (i : ℕ)
    → i < length ps
    → (get_or ps i blank).referenced ≡ true
    → suc (references (set ps i (reset_reference (get_or ps i blank)))) ≡ references ps
unfolding references
references-reset [] i h on = absurd (omega arith)
references-reset (p ∷ ps) zero h on = rw on refl
references-reset (p ∷ ps) (suc i) h on =
    let e = references-reset ps i (omega arith) on in shift p.referenced e

Cleared-self : (ps : List Page) → Cleared ps ps
Cleared-self [] = tt
Cleared-self (p ∷ ps) = (inl refl, Cleared-self ps)

Cleared-reset :
    (ps : List Page) (i : ℕ)
    → (get_or ps i blank).referenced ≡ true
    → Cleared ps (set ps i (reset_reference (get_or ps i blank)))
Cleared-reset [] i on = tt
Cleared-reset (p ∷ ps) zero on = (inr (on, refl), Cleared-self ps)
Cleared-reset (p ∷ ps) (suc i) on = (inl refl, Cleared-reset ps i on)

reset_twice :
    (p q r : Page)
    → (q ≡ p) ⊎ ((p.referenced ≡ true) × (q ≡ reset_reference p))
    → (r ≡ q) ⊎ ((q.referenced ≡ true) × (r ≡ reset_reference q))
    → (r ≡ p) ⊎ ((p.referenced ≡ true) × (r ≡ reset_reference p))
reset_twice p q r (inl e) (inl f) = inl (f ∙ e)
reset_twice p q r (inl e) (inr (on, f)) =
    inr (sym (ap (λ (x : Page). x.referenced) e) ∙ on, f ∙ ap (λ (x : Page). reset_reference x) e)
reset_twice p q r (inr (on, e)) (inl f) = inr (on, f ∙ e)
reset_twice p q r (inr (on, e)) (inr (on', f)) =
    inr (on, f ∙ ap (λ (x : Page). reset_reference x) e)

Cleared-trans : (ps qs rs : List Page) → Cleared ps qs → Cleared qs rs → Cleared ps rs
Cleared-trans [] [] [] c d = tt
Cleared-trans [] [] (r ∷ rs) c d = elim d [ ]
Cleared-trans [] (q ∷ qs) rs c d = elim c [ ]
Cleared-trans (p ∷ ps) [] rs c d = elim c [ ]
Cleared-trans (p ∷ ps) (q ∷ qs) [] c d = elim d [ ]
Cleared-trans (p ∷ ps) (q ∷ qs) (r ∷ rs) (c, cs) (d, ds) =
    (reset_twice p q r c d, Cleared-trans ps qs rs cs ds)

-- The turns end, within as many turns as bits are set and one: at a page whose bit is not set by then.
pub turn_clock_lem :
    (fuel : ℕ) (memory : List Page) (clock_p : ℕ)
    → number_of_memory_frames ≤ length memory
    → references memory < fuel
    → (cleared : List Page) × (hand : ℕ) × (turn_clock fuel memory clock_p ≡ some (cleared, hand))
      × Cleared memory cleared
      × (hand < length cleared)
      × ((get_or cleared hand blank).referenced ≡ false)
unfolding turn_clock
turn_clock_lem zero memory clock_p full enough = absurd (omega arith)
turn_clock_lem (suc fuel) memory clock_p full enough =
    let hand = if leb number_of_memory_frames clock_p then 0 else clock_p in
    let p = get_or memory hand blank in
    let inside : hand < length memory = ground arith in
    let inside_test : ltb hand (length memory) ≡ true = ground arith in
    elim (Bool-cases p.referenced) [
      | inl on ↦
          let less = references-reset memory hand inside on in
          let (cleared, stop, e, reset, within, off) =
            turn_clock_lem fuel (set memory hand (reset_reference p)) (suc hand)
              (omega (arith, length-set memory hand (reset_reference p))) (omega (arith, less)) in
          (
            cleared,
            stop,
            rw inside_test (rw on e),
            Cleared-trans memory (set memory hand (reset_reference p)) cleared
                (Cleared-reset memory hand on) reset,
            within,
            off,
          )
      | inr off ↦ (memory, hand, rw inside_test (rw off refl), Cleared-self memory, inside, off)
    ]
