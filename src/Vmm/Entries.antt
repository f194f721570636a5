-- ===== src/Vmm/Entries.antt =====
-- The frame and the attributes of an entry of kernal/mem/virtmem.c are independent of one another.
use she_x_mini_operating_sys.Base.{
  ℕ, ◌+◌, ◌*◌, ◌/◌, ◌%◌, ◌^◌, ◌<◌, ◌≡◌, ap, sym, ◌∙◌, true, false, not, ◌==◌, arith, bit_and,
}
use she_x_mini_operating_sys.Base.Bits.{bit_and_halves, bit_or_halves}
use she_x_mini_operating_sys.Base.Masks.{bit_and_low, bit_and_high, bit_or_sum, bit_or-zero}
use she_x_mini_operating_sys.Vmm.{
  entry_set_frame, entry_is_present, entry_is_writable, entry_physical, entry_set_attrib,
  entry_clear_attrib, pte_present,
}

-- The parts of an entry, as the processor reads them.
pub present_value : (entry : ℕ) → entry_is_present entry ≡ not (entry % 2 == 0)
unfolding entry_is_present
present_value entry = rw (bit_and_low 1 entry)

and_two : (w : ℕ) → bit_and w 2 ≡ w / 2 % 2 * 2
and_two w = omega (arith, bit_and_halves w 2, bit_and_low 1 (w / 2))

pub writable_value : (entry : ℕ) → entry_is_writable entry ≡ not (entry / 2 % 2 * 2 == 0)
unfolding entry_is_writable
writable_value entry = rw (and_two entry)

pub physical_value : (entry : ℕ) → entry < 2 ^ 32 → entry_physical entry ≡ entry / 2 ^ 12 * 2 ^ 12
unfolding entry_physical
physical_value entry h = bit_and_high 12 20 entry (omega arith)

pub set_frame_value :
    (entry address : ℕ)
    → address < 2 ^ 32
    → entry_set_frame entry address ≡ address / 2 ^ 12 * 2 ^ 12 + entry % 2 ^ 12
unfolding entry_set_frame
set_frame_value entry address h =
    rw (bit_and_high 12 20 address (omega arith), bit_and_low 12 entry)
      (bit_or_sum 12 (address / 2 ^ 12) (entry % 2 ^ 12) (omega arith))

pub set_present_value : (entry : ℕ) → entry_set_attrib entry pte_present ≡ entry / 2 * 2 + 1
unfolding entry_set_attrib
set_present_value entry = omega (arith, bit_or_halves entry 1, bit_or-zero (entry / 2))

pub clear_present_value :
    (entry : ℕ) → entry < 2 ^ 32 → entry_clear_attrib entry pte_present ≡ entry / 2 * 2
unfolding entry_clear_attrib
clear_present_value entry h =
    omega (arith, bit_and_halves entry 0xffff_fffe, bit_and_low 31 (entry / 2))

-- Storing a frame in an entry makes the address of the frame, cut to 4 KiB, the one that is read back,
-- and keeps the present and the writable bit.
pub entry_set_frame_lem :
    (entry address : ℕ)
    → address < 2 ^ 32
    → (entry_physical (entry_set_frame entry address) ≡ address / 2 ^ 12 * 2 ^ 12)
      × (entry_is_present (entry_set_frame entry address) ≡ entry_is_present entry)
      × (entry_is_writable (entry_set_frame entry address) ≡ entry_is_writable entry)
entry_set_frame_lem entry address h =
    let w = address / 2 ^ 12 * 2 ^ 12 + entry % 2 ^ 12 in
    let low : w % 2 ≡ entry % 2 = omega arith in
    let second : w / 2 % 2 ≡ entry / 2 % 2 = omega arith in
    rw (set_frame_value entry address h) (
      physical_value w (omega arith) ∙ omega arith,
      present_value w ∙ ap (λ b. not (b == 0)) low ∙ sym (present_value entry),
      writable_value w ∙ ap (λ b. not (b * 2 == 0)) second ∙ sym (writable_value entry),
    )

-- Setting the present bit of a 32-bit entry makes it present, clearing the bit makes it absent, and
-- neither changes the frame or the writable bit.
pub entry_set_attrib_lem :
    (entry : ℕ)
    → entry < 2 ^ 32
    → (entry_is_present (entry_set_attrib entry pte_present) ≡ true)
      × (entry_is_present (entry_clear_attrib entry pte_present) ≡ false)
      × (entry_physical (entry_set_attrib entry pte_present) ≡ entry_physical entry)
      × (entry_physical (entry_clear_attrib entry pte_present) ≡ entry_physical entry)
      × (entry_is_writable (entry_set_attrib entry pte_present) ≡ entry_is_writable entry)
      × (entry_is_writable (entry_clear_attrib entry pte_present) ≡ entry_is_writable entry)
entry_set_attrib_lem entry h =
    let on = entry / 2 * 2 + 1 in
    let off = entry / 2 * 2 in
    let on_low : on % 2 ≡ 1 = omega arith in
    let off_low : off % 2 ≡ 0 = omega arith in
    let on_second : on / 2 % 2 ≡ entry / 2 % 2 = omega arith in
    let off_second : off / 2 % 2 ≡ entry / 2 % 2 = omega arith in
    rw (set_present_value entry, clear_present_value entry h)
      (
        present_value on ∙ ap (λ b. not (b == 0)) on_low,
        present_value off ∙ ap (λ b. not (b == 0)) off_low,
        physical_value on (omega arith) ∙ omega (arith, physical_value entry h),
        physical_value off (omega arith) ∙ omega (arith, physical_value entry h),
        writable_value on ∙ ap (λ b. not (b * 2 == 0)) on_second ∙ sym (writable_value entry),
        writable_value off ∙ ap (λ b. not (b * 2 == 0)) off_second ∙ sym (writable_value entry),
      )
