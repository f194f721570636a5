-- ===== src/Vmm/Memory.antt =====
-- Memory as kernal/mem/virtmem.c meets it: physical words, and pointers that the processor translates
-- through the page directory.
use she_x_mini_operating_sys.Base.{
  ℕ, ◌+◌, ◌*◌, ◌/◌, ◌%◌, ◌^◌, ◌≡◌, ap, Option, none, some, ◌==◌, if◌then◌else◌, update,
}
use she_x_mini_operating_sys.Pmm.{Bitmap}

-- `memory` holds the word at each physical address, counted in words; `pdbr` is the physical address
-- of the directory, and `page_directory` the pointer of the source. `bitmap` is that of the block
-- allocator.
pub record Machine : Type 0 where
  pub memory : ℕ → ℕ
  pub pdbr : ℕ
  pub page_directory : ℕ
  pub bitmap : Bitmap

-- The frame of an entry, and its present bit, as the processor reads them.
abbrev pub frame : ℕ → ℕ
frame entry = entry / 4096 * 4096

-- The two steps of the translation of a virtual address on the x86: the entry of the directory, and the
-- entry of the table that it names; `none` is a page fault.
abbrev pub walk_table : (ℕ → ℕ) → ℕ → ℕ → Option ℕ
walk_table memory pde virtual =
    let pte = memory (frame pde / 4 + virtual / 4096 % 1024) in
    if pte % 2 == 0 then none else some (frame pte + virtual % 4096)

unfoldable pub walk : (ℕ → ℕ) → ℕ → ℕ → Option ℕ
walk memory pdbr virtual =
    let pde = memory (pdbr / 4 + virtual / 2 ^ 22) in
    if pde % 2 == 0 then none else walk_table memory pde virtual

-- What runs on the machine; `none` is a page fault.
abbrev pub M : Type 0 → Type 0
M A = Machine → Option (A × Machine)

-- The rest of a computation, after a first part that ended so.
abbrev pub resume : {A B : Type 0} → (A → M B) → Option (A × Machine) → Option (B × Machine)
resume f none = none
resume f (some (a, m)) = f a m

infixl 5 ◌>>=◌ ◌>>◌
abbrev pub ◌>>=◌ : {A B : Type 0} → M A → (A → M B) → M B
◌>>=◌ x f m = resume f (x m)

abbrev pub ◌>>◌ : {A B : Type 0} → M A → M B → M B
x >> y = x >>= λ _. y

abbrev pub pure : {A : Type 0} → A → M A
pure a m = some (a, m)

-- The word at a physical address, and a write to it; `none` where the translation failed.
abbrev pub read_at : Machine → Option ℕ → Option (ℕ × Machine)
read_at m none = none
read_at m (some a) = some (m.memory (a / 4), m)

abbrev pub write_at : Machine → ℕ → Option ℕ → Option (Unit {0} × Machine)
write_at m w none = none
write_at m w (some a) = some (tt, record m { memory = update m.memory (a / 4) w })

-- `*pointer`, and the assignment to it.
unfoldable pub load : ℕ → M ℕ
load pointer m = read_at m (walk m.memory m.pdbr pointer)

unfoldable pub store : ℕ → ℕ → M (Unit {0})
store pointer w m = write_at m w (walk m.memory m.pdbr pointer)

-- Computations in sequence.
pub bind-some :
    {A B : Type 0} (x : M A) (f : A → M B) (m m' : Machine) (a : A)
    → x m ≡ some (a, m')
    → (x >>= f) m ≡ f a m'
bind-some x f m m' a e = ap (resume f) e

pub then-some :
    {A B : Type 0} (x : M A) (y : M B) (m m' : Machine) (a : A)
    → x m ≡ some (a, m')
    → (x >> y) m ≡ y m'
then-some x y m m' a e = ap (resume (λ b. y)) e
