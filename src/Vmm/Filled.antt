-- ===== src/Vmm/Filled.antt =====
-- The entry that `map_page` leaves in a page table.
use she_x_mini_operating_sys.Base.{
  ℕ, ◌+◌, ◌*◌, ◌/◌, ◌%◌, ◌^◌, ◌<◌, ◌≡◌, sym, ◌∙◌, true, not, ◌==◌, Bool-cases, inl, inr, arith,
}
use she_x_mini_operating_sys.Base.Bits.{bit_or_halves}
use she_x_mini_operating_sys.Base.Masks.{bit_or-zero}
use she_x_mini_operating_sys.Vmm.{
  entry_set_attrib, entry_set_frame, entry_is_present, entry_is_writable, pte_present, pte_writable,
}
use she_x_mini_operating_sys.Vmm.Entries.{
  present_value, writable_value, set_frame_value, set_present_value,
}
use she_x_mini_operating_sys.Vmm.Slot.{made_present, made_writable, filled}

set_writable_value :
    (entry : ℕ) → entry_set_attrib entry pte_writable ≡ entry / 4 * 4 + 2 + entry % 2
unfolding entry_set_attrib
set_writable_value entry =
    omega (arith, bit_or_halves entry 2, bit_or_halves (entry / 2) 1, bit_or-zero (entry / 2 / 2))

pub made_present_value : (entry : ℕ) → made_present pte_present entry ≡ entry / 2 * 2 + 1
made_present_value entry = elim (Bool-cases (entry_is_present entry)) [
  | inl on ↦
      let bit : not (entry % 2 == 0) ≡ true = sym (present_value entry) ∙ on in rw on (ground arith)
  | inr off ↦ rw off (set_present_value entry)
]

pub made_writable_value : (entry : ℕ) → made_writable entry ≡ entry / 4 * 4 + 2 + entry % 2
made_writable_value entry = elim (Bool-cases (entry_is_writable entry)) [
  | inl on ↦
      let bit : not (entry / 2 % 2 * 2 == 0) ≡ true = sym (writable_value entry) ∙ on in
      rw on (ground arith)
  | inr off ↦ rw off (set_writable_value entry)
]

-- It is present and writable, and holds the frame's address.
pub filled_value :
    (entry address : ℕ)
    → address < 2 ^ 32
    → (filled entry address % 2 ≡ 1)
      × (filled entry address / 2 % 2 ≡ 1)
      × (filled entry address / 4096 ≡ address / 4096)
filled_value entry address h =
    let framed = entry_set_frame entry address in
    let e = set_frame_value entry address h in
    let p = made_present_value framed in
    let w = made_writable_value (made_present pte_present framed) in
    (omega (arith, e, p, w), omega (arith, e, p, w), omega (arith, e, p, w))
