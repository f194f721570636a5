-- ===== src/Ata.antt =====
-- kernal/driver/ATA.c: reading sectors from the disk. What the disk's ports give is an argument: the
-- bytes of its status and the words of its data, in the order in which they are read.
pub mod Waits
pub mod Laws
mod Tests
use she_x_mini_operating_sys.Base.{
  ℕ, zero, suc, ◌+◌, Bool, not, Option, none, some, List, [], ◌∷◌, ◌==◌, if◌then◌else◌, update, u8,
  ◌>>>◌, bit_and, bit_or,
}

abbrev pub status_bsy : ℕ
status_bsy = 0x80

abbrev pub status_dra : ℕ
status_dra = 0x08

abbrev pub is_status : ℕ → ℕ → Bool
is_status flag status = not (bit_and status flag == 0)

-- The statuses behind those that `ATA_wait_BSY` reads, or `none` where they end before it does.
unfoldable pub wait_bsy : List ℕ → Option (List ℕ)
wait_bsy [] = none
wait_bsy (status ∷ statuses) =
    let again = wait_bsy statuses in if is_status status_bsy status then again else some statuses

-- The same for `ATA_wait_DRQ`.
unfoldable pub wait_drq : List ℕ → Option (List ℕ)
wait_drq [] = none
wait_drq (status ∷ statuses) =
    let again = wait_drq statuses in if is_status status_dra status then some statuses else again

-- The writes to the ports in front of the data, each a port and a byte.
abbrev pub ata_request : ℕ → ℕ → List (ℕ × ℕ)
ata_request lba sector_count =
    (0x1f6, u8 (bit_or 0xe0 (bit_and (lba >>> 24) 0xf)))
    ∷ (0x1f2, sector_count)
    ∷ (0x1f3, u8 lba)
    ∷ (0x1f4, u8 (lba >>> 8))
    ∷ (0x1f5, u8 (lba >>> 16))
    ∷ (0x1f7, 0x20)
    ∷ []

-- The words of memory from the target address on, and what the ports have left to give.
pub record Transfer : Type 0 where
  pub target : ℕ → ℕ
  pub statuses : List ℕ
  pub words : List ℕ

abbrev pub bind {ℓ κ} : {A : Type ℓ} {B : Type κ} → Option A → (A → Option B) → Option B
bind none next = none
bind (some a) next = next a

-- The inner loop, from an index of the target on; `none` where the words end first.
unfoldable pub word_loop : ℕ → ℕ → (ℕ → ℕ) → List ℕ → Option ((ℕ → ℕ) × List ℕ)
word_loop zero i target words = some (target, words)
word_loop (suc left) i target [] = none
word_loop (suc left) i target (word ∷ words) = word_loop left (i + 1) (update target i word) words

abbrev pub wait_both : List ℕ → Option (List ℕ)
wait_both statuses = bind (wait_bsy statuses) wait_drq

abbrev pub read_sector : ℕ → Transfer → Option Transfer
read_sector i t = bind (wait_both t.statuses) (λ left.
    bind (word_loop 256 i t.target t.words)
      (λ (target, words). some (record { target = target; statuses = left; words = words })))

-- The outer loop, with the number of sectors that are left as its counter.
unfoldable pub sector_loop : ℕ → ℕ → Transfer → Option Transfer
sector_loop zero i t = some t
sector_loop (suc left) i t = bind (read_sector i t) (sector_loop left (i + 256))

-- The writes to the ports, and the transfer.
unfoldable pub read_sectors : ℕ → ℕ → Transfer → Option (List (ℕ × ℕ) × Transfer)
read_sectors lba sector_count t = bind (wait_bsy t.statuses) (λ left.
    bind (sector_loop sector_count 0 (record t { statuses = left }))
      (λ t'. some (ata_request lba sector_count, t')))
