-- ===== src/Ata/Tests.antt =====
-- A transfer of one sector by kernal/driver/ATA.c, and the theorem on it.
use she_x_mini_operating_sys.Base.{
  ℕ, ◌%◌, ◌^◌, ◌≡◌, refl, none, some, List, [], ◌∷◌, ◌++◌, ltb, if◌then◌else◌, get_or, length,
  replicate,
}
use she_x_mini_operating_sys.Ata.{read_sectors, wait_bsy, ata_request}
use she_x_mini_operating_sys.Ata.Waits.{Idle, Poll, idle_bytes, polls_bytes}
use she_x_mini_operating_sys.Ata.Laws.{joined, first_sector, read_sectors_lem}

abbrev soon_idle : Idle
soon_idle = record { busy = 0x80 ∷ 0xd0 ∷ []; idle = 0x50 }

abbrev one_poll : List Poll
one_poll = record { before = soon_idle; pending = 0x50 ∷ []; ready = 0x58 } ∷ []

abbrev one_sector : List (List ℕ)
one_sector = replicate 256 7 ∷ []

stays_busy : wait_bsy (0x80 ∷ 0x80 ∷ []) ≡ none
unfolding wait_bsy
stays_busy = refl

read_sectors_lem_example :
    (m' : ℕ → ℕ) × (read_sectors 0x12345678 1 (record {
      target = λ j. 0;
      statuses = idle_bytes soon_idle (polls_bytes one_poll []);
      words = joined one_sector ++ [];
    })
      ≡ some (ata_request 0x12345678 1, record { target = m'; statuses = []; words = [] }))
    × ((j : ℕ)
        → m' j ≡ (if ltb j (length (joined one_sector)) then get_or (joined one_sector) j 0 else 0))
    × (first_sector (ata_request 0x12345678 1) ≡ 0x12345678 % 2 ^ 28)
read_sectors_lem_example =
    read_sectors_lem 0x12345678 soon_idle one_poll one_sector (λ j. 0) [] [] refl refl refl refl
