-- ===== src/Ata/Waits.antt =====
-- The waits of kernal/driver/ATA.c, on a disk that is busy and without data for a while.
use she_x_mini_operating_sys.Base.{
  ℕ, ◌≡◌, refl, ap, ◌∙◌, Bool, true, false, not, ◌&&◌, Option, some, List, [], ◌∷◌, ◌++◌,
}
use she_x_mini_operating_sys.Ata.{
  status_bsy, status_dra, is_status, wait_bsy, wait_drq, wait_both, bind,
}

-- Statuses that all have a flag, and statuses of which none has it.
abbrev pub all_have : ℕ → List ℕ → Bool
all_have flag [] = true
all_have flag (s ∷ ss) = is_status flag s && all_have flag ss

abbrev pub none_has : ℕ → List ℕ → Bool
none_has flag [] = true
none_has flag (s ∷ ss) = not (is_status flag s) && none_has flag ss

-- The disk is busy for a while, then idle.
pub record Idle : Type 0 where
  pub busy : List ℕ
  pub idle : ℕ

-- And then it is for a while without data, before it asks for the transfer.
pub record Poll : Type 0 where
  pub before : Idle
  pub pending : List ℕ
  pub ready : ℕ

abbrev pub idle_bytes : Idle → List ℕ → List ℕ
idle_bytes p rest = p.busy ++ (p.idle ∷ rest)

abbrev pub is_idle : Idle → Bool
is_idle p = all_have status_bsy p.busy && not (is_status status_bsy p.idle)

abbrev pub poll_bytes : Poll → List ℕ → List ℕ
poll_bytes p rest = idle_bytes p.before (p.pending ++ (p.ready ∷ rest))

abbrev pub is_poll : Poll → Bool
is_poll p = is_idle p.before && (none_has status_dra p.pending && is_status status_dra p.ready)

abbrev pub polls_bytes : List Poll → List ℕ → List ℕ
polls_bytes [] rest = rest
polls_bytes (p ∷ ps) rest = poll_bytes p (polls_bytes ps rest)

abbrev pub are_polls : List Poll → Bool
are_polls [] = true
are_polls (p ∷ ps) = is_poll p && are_polls ps

pub and_both : (a b : Bool) → (a && b) ≡ true → (a ≡ true) × (b ≡ true)
and_both true b h = (refl, h)
and_both false b h = absurd (cc)

pub false_of_not : (a : Bool) → not a ≡ true → a ≡ false
false_of_not true h = absurd (cc)
false_of_not false h = refl

wait_bsy-busy :
    (busy : List ℕ) (idle : ℕ) (rest : List ℕ)
    → all_have status_bsy busy ≡ true
    → is_status status_bsy idle ≡ false
    → wait_bsy (busy ++ (idle ∷ rest)) ≡ some rest
unfolding wait_bsy
wait_bsy-busy [] idle rest ok end = rw end refl
wait_bsy-busy (s ∷ busy) idle rest ok end =
    let (here, there) = and_both (is_status status_bsy s) _ ok in
    rw here (wait_bsy-busy busy idle rest there end)

pub wait_bsy-Idle :
    (p : Idle) (rest : List ℕ) → is_idle p ≡ true → wait_bsy (idle_bytes p rest) ≡ some rest
wait_bsy-Idle p rest ok =
    let (busy, idle) = and_both (all_have status_bsy p.busy) _ ok in
    wait_bsy-busy p.busy p.idle rest busy (false_of_not _ idle)

wait_drq-pending :
    (pending : List ℕ) (ready : ℕ) (rest : List ℕ)
    → none_has status_dra pending ≡ true
    → is_status status_dra ready ≡ true
    → wait_drq (pending ++ (ready ∷ rest)) ≡ some rest
unfolding wait_drq
wait_drq-pending [] ready rest ok end = rw end refl
wait_drq-pending (s ∷ pending) ready rest ok end =
    let (here, there) = and_both (not (is_status status_dra s)) _ ok in
    rw (false_of_not _ here) (wait_drq-pending pending ready rest there end)

pub wait_both-Poll :
    (p : Poll) (rest : List ℕ) → is_poll p ≡ true → wait_both (poll_bytes p rest) ≡ some rest
wait_both-Poll p rest ok =
    let (idle, asked) = and_both (is_idle p.before) _ ok in
    let (pending, ready) = and_both (none_has status_dra p.pending) _ asked in
    ap (λ (o : Option (List ℕ)). bind o wait_drq)
      (wait_bsy-Idle p.before (p.pending ++ (p.ready ∷ rest)) idle)
    ∙ wait_drq-pending p.pending p.ready rest pending ready
