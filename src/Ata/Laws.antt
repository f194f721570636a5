-- ===== src/Ata/Laws.antt =====
-- The transfer of kernal/driver/ATA.c, against the sectors that the disk gives.
use she_x_mini_operating_sys.Base.{
  ℕ, suc, ◌+◌, ◌-◌, ◌*◌, ◌%◌, ◌^◌, ◌≡◌, refl, sym, ap, ◌∙◌, Bool, true, ◌&&◌, Bool-cases, inl, inr,
  Option, some, List, [], ◌∷◌, ◌++◌, ltb, ◌==◌, if◌then◌else◌, update, bit_and, bit_or, ◌>>>◌,
  length, get_or, arith,
}
use she_x_mini_operating_sys.Base.Masks.{bit_and_low, bit_or_sum}
use she_x_mini_operating_sys.Ata.{
  word_loop, read_sector, sector_loop, read_sectors, ata_request, Transfer, bind,
}
use she_x_mini_operating_sys.Ata.Waits.{
  Idle, Poll, idle_bytes, is_idle, poll_bytes, is_poll, polls_bytes, are_polls, and_both,
  wait_bsy-Idle, wait_both-Poll,
}

-- Words written one after the other from an index on.
pub filled : (ℕ → ℕ) → ℕ → List ℕ → ℕ → ℕ
filled m i [] = m
filled m i (w ∷ ws) = filled (update m i w) (i + 1) ws

-- The words stand there, and no other index has changed.
pub filled_lem :
    (ws : List ℕ) (m : ℕ → ℕ) (i j : ℕ)
    → filled m i ws j
      ≡ (if ltb j i then m j else if ltb j (i + length ws) then get_or ws (j - i) 0 else m j)
unfolding filled
filled_lem [] m i j = ground arith
filled_lem (w ∷ ws) m i j = filled_lem ws (update m i w) (i + 1) j ∙ elim (Bool-cases (ltb i j)) [
  | inl behind ↦
      let place : j - i ≡ suc (j - (i + 1)) = ground arith in
      let later : get_or (w ∷ ws) (j - i) 0 ≡ get_or ws (j - (i + 1)) 0 =
        ap (λ (k : ℕ). get_or (w ∷ ws) k 0) place in
      ground (arith, later)
  | inr front ↦
      let place : j - i ≡ 0 = ground arith in
      let first : get_or (w ∷ ws) (j - i) 0 ≡ w = ap (λ (k : ℕ). get_or (w ∷ ws) k 0) place in
      ground (arith, first)
]

filled-append :
    (ws vs : List ℕ) (m : ℕ → ℕ) (i : ℕ)
    → filled m i (ws ++ vs) ≡ filled (filled m i ws) (i + length ws) vs
unfolding filled
filled-append [] vs m i = ap (λ (k : ℕ). filled m k vs) (omega arith)
filled-append (w ∷ ws) vs m i =
    filled-append ws vs (update m i w) (i + 1)
    ∙ ap (λ (k : ℕ). filled (filled (update m i w) (i + 1) ws) k vs) (omega arith)

word_loop-filled :
    (ws more : List ℕ) (i : ℕ) (m : ℕ → ℕ)
    → word_loop (length ws) i m (ws ++ more) ≡ some (filled m i ws, more)
unfolding word_loop filled
word_loop-filled [] more i m = refl
word_loop-filled (w ∷ ws) more i m = word_loop-filled ws more (i + 1) (update m i w)

read_sector-Poll :
    (p : Poll) (ws : List ℕ) (i : ℕ) (m : ℕ → ℕ) (rest more : List ℕ)
    → is_poll p ≡ true
    → length ws ≡ 256
    → read_sector i (record { target = m; statuses = poll_bytes p rest; words = ws ++ more })
      ≡ some (record { target = filled m i ws; statuses = rest; words = more })
read_sector-Poll p ws i m rest more ok size =
    let store : (ℕ → ℕ) × List ℕ → Option Transfer =
      λ (target, words). some (record { target = target; statuses = rest; words = words }) in
    ap
      (λ (o : Option (List ℕ)). bind o (λ left.
        bind (word_loop 256 i m (ws ++ more))
          (λ (target, words). some (record { target = target; statuses = left; words = words }))))
      (wait_both-Poll p rest ok)
    ∙ ap (λ (n : ℕ). bind (word_loop n i m (ws ++ more)) store) (sym size)
    ∙ ap (λ (o : Option ((ℕ → ℕ) × List ℕ)). bind o store) (word_loop-filled ws more i m)

-- The words of several sectors.
abbrev pub joined : List (List ℕ) → List ℕ
joined [] = []
joined (ws ∷ wss) = ws ++ joined wss

abbrev pub are_sectors : List (List ℕ) → Bool
are_sectors [] = true
are_sectors (ws ∷ wss) = (length ws == 256) && are_sectors wss

append_all : (xs ys zs : List ℕ) → (xs ++ ys) ++ zs ≡ xs ++ (ys ++ zs)
append_all [] ys zs = refl
append_all (x ∷ xs) ys zs = ap (λ us. x ∷ us) (append_all xs ys zs)

sector_loop-joined :
    (polls : List Poll) (wss : List (List ℕ)) (i : ℕ) (m : ℕ → ℕ) (rest more : List ℕ)
    → are_polls polls ≡ true
    → are_sectors wss ≡ true
    → length polls ≡ length wss
    → sector_loop
        (length wss)
        i
        (record { target = m; statuses = polls_bytes polls rest; words = joined wss ++ more })
      ≡ some (record { target = filled m i (joined wss); statuses = rest; words = more })
unfolding sector_loop filled
sector_loop-joined [] [] i m rest more ok full same = refl
sector_loop-joined [] (ws ∷ wss) i m rest more ok full same = absurd (omega arith)
sector_loop-joined (p ∷ polls) [] i m rest more ok full same = absurd (omega arith)
sector_loop-joined (p ∷ polls) (ws ∷ wss) i m rest more ok full same =
    let (this, others) = and_both (is_poll p) _ ok in
    let (size, sizes) = and_both (length ws == 256) _ full in
    let long : length ws ≡ 256 = ground arith in
    ap
      (λ (us : List ℕ).
        bind
          (read_sector i
            (record { target = m; statuses = poll_bytes p (polls_bytes polls rest); words = us }))
          (sector_loop (length wss) (i + 256)))
      (append_all ws (joined wss) more)
    ∙ ap (λ (o : Option Transfer). bind o (sector_loop (length wss) (i + 256)))
        (read_sector-Poll p ws i m (polls_bytes polls rest) (joined wss ++ more) this long)
    ∙ sector_loop-joined polls wss (i + 256) (filled m i ws) rest more others sizes (omega arith)
    ∙ ap (λ (t : ℕ → ℕ). some (record { target = t; statuses = rest; words = more }))
        (ap (λ (k : ℕ). filled (filled m i ws) (i + k) (joined wss)) (sym long)
          ∙ sym (filled-append ws (joined wss) m i))

from_start :
    (ws : List ℕ) (m : ℕ → ℕ) (j : ℕ)
    → (if ltb j 0 then m j else if ltb j (0 + length ws) then get_or ws (j - 0) 0 else m j)
      ≡ (if ltb j (length ws) then get_or ws j 0 else m j)
from_start ws m j =
    let same : get_or ws (j - 0) 0 ≡ get_or ws j 0 = ap (λ (k : ℕ). get_or ws k 0) (omega arith) in
    ground (arith, same)

-- The byte that a port has been given.
abbrev pub written : ℕ → List (ℕ × ℕ) → ℕ
written port [] = 0
written port ((p, byte) ∷ writes) = if p == port then byte else written port writes

-- The first sector and the number of sectors that a disk takes from its ports.
abbrev pub first_sector : List (ℕ × ℕ) → ℕ
first_sector writes =
    written 0x1f3 writes
    + 2 ^ 8 * written 0x1f4 writes
    + 2 ^ 16 * written 0x1f5 writes
    + 2 ^ 24 * (written 0x1f6 writes % 16)

ata_request_lem : (lba count : ℕ) → first_sector (ata_request lba count) ≡ lba % 2 ^ 28
ata_request_lem lba count =
    let low : bit_and (lba >>> 24) 0xf ≡ (lba >>> 24) % 16 = bit_and_low 4 (lba >>> 24) in
    let sum : bit_or 0xe0 ((lba >>> 24) % 16) ≡ 0xe0 + (lba >>> 24) % 16 =
      bit_or_sum 4 14 ((lba >>> 24) % 16) (omega arith) in
    rw (low, sum) (omega arith)

-- When the disk is idle after a while, and asks for each sector after being busy and without data for a
-- while, `read_sectors` ends: the ports have been given the request, whose first sector is the number's low
-- 28 bits; the words of the sectors stand in memory in their order from the target on, no other word has
-- changed, and no status and no word more has been read. The number of the sectors is the count, and each has 256 words.
pub read_sectors_lem :
    (lba : ℕ) (first : Idle) (polls : List Poll) (wss : List (List ℕ)) (m : ℕ → ℕ)
    (rest more : List ℕ)
    → is_idle first ≡ true
    → are_polls polls ≡ true
    → are_sectors wss ≡ true
    → length polls ≡ length wss
    → (m' : ℕ → ℕ) × (read_sectors lba (length wss) (record {
      target = m;
      statuses = idle_bytes first (polls_bytes polls rest);
      words = joined wss ++ more;
    })
        ≡ some
            (ata_request lba (length wss), record { target = m'; statuses = rest; words = more }))
      × ((j : ℕ) → m' j ≡ (if ltb j (length (joined wss)) then get_or (joined wss) j 0 else m j))
      × (first_sector (ata_request lba (length wss)) ≡ lba % 2 ^ 28)
unfolding read_sectors
read_sectors_lem lba first polls wss m rest more idle ok full same =
    let start : Transfer = record {
      target = m;
      statuses = polls_bytes polls rest;
      words = joined wss ++ more;
    } in
    let answer : Transfer → Option (List (ℕ × ℕ) × Transfer) =
      λ t'. some (ata_request lba (length wss), t') in
    (
      filled m 0 (joined wss),
      ap
            (λ (o : Option (List ℕ)).
              bind o (λ left.
                bind (sector_loop (length wss) 0 (record start { statuses = left })) answer))
            (wait_bsy-Idle first (polls_bytes polls rest) idle)
          ∙ ap (λ (o : Option Transfer). bind o answer)
              (sector_loop-joined polls wss 0 m rest more ok full same),
      λ j. filled_lem (joined wss) m 0 j ∙ from_start (joined wss) m j,
      ata_request_lem lba (length wss),
    )
