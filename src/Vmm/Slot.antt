-- ===== src/Vmm/Slot.antt =====
-- The setters of kernal/mem/virtmem.c through a pointer whose translation does not depend on the word
-- that it leads to.
use mathlib.Core.Path.{subst}
use she_x_mini_operating_sys.Base.{
  ℕ, ◌*◌, ◌/◌, ◌≡◌, refl, ap, ◌∙◌, fun_ext, Bool, true, false, some, if◌then◌else◌, update, arith,
}
use she_x_mini_operating_sys.Vmm.{
  pte_present, pte_writable, entry_set_attrib, entry_clear_attrib, entry_set_frame,
  entry_is_present, entry_is_writable,
}
use she_x_mini_operating_sys.Vmm.Memory.{
  Machine, pure, walk, load, store, read_at, write_at, bind-some, then-some,
}
use she_x_mini_operating_sys.Vmm.Paging.{
  clear_attrib, set_attrib, set_frame, unless_present, unless_writable, fill_entry,
}

-- What the guarded setters leave of an entry.
abbrev pub made_present : ℕ → ℕ → ℕ
made_present attrib e = if entry_is_present e then e else entry_set_attrib e attrib

abbrev pub made_writable : ℕ → ℕ
made_writable e = if entry_is_writable e then e else entry_set_attrib e pte_writable

-- A frame stored in the entry, which is made present and writable.
abbrev pub filled : ℕ → ℕ → ℕ
filled x address = made_writable (made_present pte_present (entry_set_frame x address))

-- The machine with the word `x` in cell `w`.
abbrev pub at : Machine → ℕ → ℕ → Machine
at m w x = record m { memory = update m.memory w x }

-- `entry` leads to cell `w`, whatever this cell holds.
abbrev pub LeadsTo : Machine → ℕ → ℕ → Type 0
LeadsTo m entry w = (x : ℕ) → walk (update m.memory w x) m.pdbr entry ≡ some (4 * w)

pub at_self : (m : Machine) (w : ℕ) → at m w (m.memory w) ≡ m
at_self m w =
    let same : update m.memory w (m.memory w) ≡ m.memory = fun_ext (λ i. ground arith) in
    ap (λ (cells : ℕ → ℕ). record m { memory = cells }) same

update_twice : (f : ℕ → ℕ) (w x y : ℕ) → update (update f w x) w y ≡ update f w y
update_twice f w x y = fun_ext (λ i. ground arith)

module _ (m : Machine) (entry w : ℕ) (leads : LeadsTo m entry w) where
  pub load-at : (x : ℕ) → load entry (at m w x) ≡ some (x, at m w x)
  unfolding load
  load-at x =
      let cell : update m.memory w x (4 * w / 4) ≡ x = ground arith in
      ap (read_at (at m w x)) (leads x) ∙ ap (λ y. some (y, at m w x)) cell

  pub store-at : (x y : ℕ) → store entry y (at m w x) ≡ some (tt, at m w y)
  unfolding store
  store-at x y =
      let cell : update (update m.memory w x) (4 * w / 4) y ≡ update m.memory w y =
        fun_ext (λ i. ground arith) in
      ap (write_at (at m w x) y) (leads x)
      ∙ ap (λ (cells : ℕ → ℕ). some (tt, record m { memory = cells })) cell

  set_attrib-at :
      (x attrib : ℕ)
      → set_attrib entry attrib (at m w x) ≡ some (tt, at m w (entry_set_attrib x attrib))
  unfolding set_attrib
  set_attrib-at x attrib =
      bind-some (load entry) _ (at m w x) (at m w x) x (load-at x)
      ∙ store-at x (entry_set_attrib x attrib)

  pub clear_attrib-at :
      (x attrib : ℕ)
      → clear_attrib entry attrib (at m w x) ≡ some (tt, at m w (entry_clear_attrib x attrib))
  unfolding clear_attrib
  clear_attrib-at x attrib =
      bind-some (load entry) _ (at m w x) (at m w x) x (load-at x)
      ∙ store-at x (entry_clear_attrib x attrib)

  pub set_frame-at :
      (x address : ℕ)
      → set_frame entry address (at m w x) ≡ some (tt, at m w (entry_set_frame x address))
  unfolding set_frame
  set_frame-at x address =
      bind-some (load entry) _ (at m w x) (at m w x) x (load-at x)
      ∙ store-at x (entry_set_frame x address)

  guarded_at :
      (x attrib : ℕ) (b : Bool)
      → (if b then pure tt else set_attrib entry attrib) (at m w x)
        ≡ some (tt, at m w (if b then x else entry_set_attrib x attrib))
  guarded_at x attrib true = refl
  guarded_at x attrib false = set_attrib-at x attrib

  pub unless_present-at :
      (x attrib : ℕ)
      → unless_present entry attrib (at m w x) ≡ some (tt, at m w (made_present attrib x))
  unfolding unless_present
  unless_present-at x attrib =
      bind-some (load entry) _ (at m w x) (at m w x) x (load-at x)
      ∙ guarded_at x attrib (entry_is_present x)

  pub unless_writable-at :
      (x : ℕ) → unless_writable entry pte_writable (at m w x) ≡ some (tt, at m w (made_writable x))
  unfolding unless_writable
  unless_writable-at x =
      bind-some (load entry) _ (at m w x) (at m w x) x (load-at x)
      ∙ guarded_at x pte_writable (entry_is_writable x)

  pub fill_entry-at :
      (x address : ℕ) → fill_entry entry address (at m w x) ≡ some (true, at m w (filled x address))
  unfolding fill_entry
  fill_entry-at x address =
      let framed = entry_set_frame x address in
      let present = made_present pte_present framed in
      then-some (set_frame entry address) _ (at m w x) (at m w framed) tt (set_frame-at x address)
      ∙ then-some (unless_present entry pte_present) _ (at m w framed) (at m w present) tt
          (unless_present-at framed pte_present)
      ∙ then-some (unless_writable entry pte_writable) (pure true) (at m w present) _ tt
          (unless_writable-at present)

  pub load_self : load entry m ≡ some (m.memory w, m)
  load_self = subst (λ k. load entry k ≡ some (m.memory w, k)) (at_self m w) (load-at (m.memory w))

  pub fill_entry_self :
      (address : ℕ) → fill_entry entry address m ≡ some (true, at m w (filled (m.memory w) address))
  fill_entry_self address =
      subst (λ k. fill_entry entry address k ≡ some (true, at m w (filled (m.memory w) address)))
        (at_self m w) (fill_entry-at (m.memory w) address)

  pub set_frame_self :
      (address : ℕ)
      → set_frame entry address m ≡ some (tt, at m w (entry_set_frame (m.memory w) address))
  set_frame_self address =
      subst
        (λ k. set_frame entry address k ≡ some (tt, at m w (entry_set_frame (m.memory w) address)))
        (at_self m w) (set_frame-at (m.memory w) address)
