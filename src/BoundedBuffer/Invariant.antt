-- ===== src/BoundedBuffer/Invariant.antt =====
-- What holds in every state that the producer and the consumer of kernal/Thread/pro_con.c reach.
use mathlib.Core.List.{append_assoc, append-nil}
use she_x_mini_operating_sys.Base.{
  ℕ, ◌<◌, ◌≡◌, ◌≢◌, refl, Bool, true, false, ◌||◌, ◌&&◌, List, ◌++◌, arith, sym, ap, ◌∙◌, inl,
}
use she_x_mini_operating_sys.BoundedBuffer.{
  Ring, Pc, System, Nothing, put, take, signal, Step, Reach,
}
use she_x_mini_operating_sys.BoundedBuffer.Queue.{
  contents, IsRing, contents-put, contents-take, put-IsRing, take-IsRing, items,
}

abbrev pub holds : {A : Type 0} → Pc A → Bool
holds (Pc.tests a) = true
holds (Pc.works a) = true
holds _ = false

abbrev pub is_working : {A : Type 0} → Pc A → Bool
is_working (Pc.works a) = true
is_working _ = false

abbrev pub is_asleep : {A : Type 0} → Pc A → Bool
is_asleep (Pc.sleeps a) = true
is_asleep _ = false

holds-signal : {A : Type 0} → (p : Pc A) → holds (signal p) ≡ holds p
holds-signal Pc.rests = refl
holds-signal (Pc.wants a) = refl
holds-signal (Pc.tests a) = refl
holds-signal (Pc.works a) = refl
holds-signal (Pc.sleeps a) = refl

is_asleep-signal : {A : Type 0} → (p : Pc A) → is_asleep (signal p) ≡ false
is_asleep-signal Pc.rests = refl
is_asleep-signal (Pc.wants a) = refl
is_asleep-signal (Pc.tests a) = refl
is_asleep-signal (Pc.works a) = refl
is_asleep-signal (Pc.sleeps a) = refl

holds_working : {A : Type 0} → (p : Pc A) → is_working p ≡ true → holds p ≡ true
holds_working Pc.rests h = h
holds_working (Pc.wants a) h = h
holds_working (Pc.tests a) h = refl
holds_working (Pc.works a) h = refl
holds_working (Pc.sleeps a) h = h

-- The mutex is locked while exactly one thread holds it; a thread past its test finds what it tested;
-- and a thread sleeps only while its condition fails.
abbrev pub IsGuarded : ℕ → ℕ → Bool → Pc ℕ → Pc Nothing → Type 0
IsGuarded size count locked p c =
    (locked ≡ (holds p || holds c))
    × ((holds p && holds c) ≡ false)
    × (is_working p ≡ true → count ≢ size)
    × (is_working c ≡ true → count ≢ 0)
    × (is_asleep p ≡ true → count ≡ size)
    × (is_asleep c ≡ true → count ≡ 0)

pub record Invariant (size : ℕ) (puts gets : List ℕ) (s : System) : Type 0 where
  pub ring_ok : IsRing size s.ring
  pub guarded : IsGuarded size s.ring.count s.locked s.producer s.consumer
  pub order : puts ≡ gets ++ contents size s.ring

-- A move of one thread, from `p` to `p'`, with the other at `c`.
move :
    (size : ℕ) (spurious : Bool) (r : Ring) (l : Bool) (p : Pc ℕ) (c : Pc Nothing) (t : System)
    (pl gl : List ℕ)
    → IsGuarded size r.count l p c
    → Step size spurious (record { ring = r; locked = l; producer = p; consumer = c }) pl gl t
    → IsGuarded size t.ring.count t.locked t.producer t.consumer
unfolding put take
move size spurious r l p c t pl gl g (Step.draw item h e) =
    ground (arith, ap holds e, ap is_working e, ap is_asleep e, g)
move size spurious r l p c t pl gl g (Step.lock_producer item e free) =
    ground (arith, ap holds e, ap is_working e, ap is_asleep e, g)
move size spurious r l p c t pl gl g (Step.full item e h) =
    ground (arith, ap holds e, ap is_working e, ap is_asleep e, g)
move size spurious r l p c t pl gl g (Step.not_full item e h) =
    ground (arith, ap holds e, ap is_working e, ap is_asleep e, g)
move size spurious r l p c t pl gl g (Step.produce item e) = ground (
  arith,
  ap holds e,
  ap is_working e,
  holds-signal c,
  is_asleep-signal c,
  holds_working (signal c),
  g,
)
move size spurious r l p c t pl gl g (Step.wake_producer item wake e) =
    ground (arith, ap holds e, ap is_working e, ap is_asleep e, g)
move size spurious r l p c t pl gl g (Step.start_consumer e) =
    ground (arith, ap holds e, ap is_working e, ap is_asleep e, g)
move size spurious r l p c t pl gl g (Step.lock_consumer e free) =
    ground (arith, ap holds e, ap is_working e, ap is_asleep e, g)
move size spurious r l p c t pl gl g (Step.empty e h) =
    ground (arith, ap holds e, ap is_working e, ap is_asleep e, g)
move size spurious r l p c t pl gl g (Step.not_empty e h) =
    ground (arith, ap holds e, ap is_working e, ap is_asleep e, g)
move size spurious r l p c t pl gl g (Step.consume e) = ground (
  arith,
  ap holds e,
  ap is_working e,
  holds-signal p,
  is_asleep-signal p,
  holds_working (signal p),
  g,
)
move size spurious r l p c t pl gl g (Step.wake_consumer wake e) =
    ground (arith, ap holds e, ap is_working e, ap is_asleep e, g)

-- What the queue holds and what is put in is what is taken out and what the queue then holds.
queue :
    (size : ℕ) (spurious : Bool) (r : Ring) (l : Bool) (p : Pc ℕ) (c : Pc Nothing) (t : System)
    (pl gl : List ℕ)
    → IsRing size r
    → IsGuarded size r.count l p c
    → Step size spurious (record { ring = r; locked = l; producer = p; consumer = c }) pl gl t
    → IsRing size t.ring × (contents size r ++ pl ≡ gl ++ contents size t.ring)
queue size spurious r l p c t pl gl ok g (Step.draw item h e) = (ok, append-nil _)
queue size spurious r l p c t pl gl ok g (Step.lock_producer item e free) = (ok, append-nil _)
queue size spurious r l p c t pl gl ok g (Step.full item e h) = (ok, append-nil _)
queue size spurious r l p c t pl gl ok g (Step.not_full item e h) = (ok, append-nil _)
queue size spurious r l p c t pl gl ok g (Step.produce item e) =
    let room : r.count < size = ground (arith, ap is_working e, g, ok.bounded) in
    (put-IsRing size item r ok room, sym (contents-put size item r ok room))
queue size spurious r l p c t pl gl ok g (Step.wake_producer item wake e) = (ok, append-nil _)
queue size spurious r l p c t pl gl ok g (Step.start_consumer e) = (ok, append-nil _)
queue size spurious r l p c t pl gl ok g (Step.lock_consumer e free) = (ok, append-nil _)
queue size spurious r l p c t pl gl ok g (Step.empty e h) = (ok, append-nil _)
queue size spurious r l p c t pl gl ok g (Step.not_empty e h) = (ok, append-nil _)
queue size spurious r l p c t pl gl ok g (Step.consume e) =
    let stock : 0 < r.count = ground (arith, ap is_working e, g) in
    (take-IsRing size r ok stock, append-nil _ ∙ contents-take size r stock)
queue size spurious r l p c t pl gl ok g (Step.wake_consumer wake e) = (ok, append-nil _)

pub reached :
    (size : ℕ) (puts gets : List ℕ) (s : System)
    → 0 < size
    → Reach size puts gets s
    → Invariant size puts gets s
unfolding items
reached size puts gets s h Reach.start = record {
  ring_ok = record { bounded = omega arith; out_inside = h; input_ahead = (h, inl refl) };
  guarded = ground arith;
  order = refl;
}
reached size puts gets t h
      (Reach.later {s = s} {puts = ps} {gets = gs} {p = p} {g = g} before step) =
    let i = reached size ps gs s h before in
    let (ok, moved) =
      queue size true s.ring s.locked s.producer s.consumer t p g i.ring_ok i.guarded step in
    record {
      ring_ok = ok;
      guarded = move size true s.ring s.locked s.producer s.consumer t p g i.guarded step;
      order =
          ap (λ xs. xs ++ p) i.order
          ∙ append_assoc gs (contents size s.ring) p
          ∙ ap (λ xs. gs ++ xs) moved
          ∙ sym (append_assoc gs g (contents size t.ring));
    }
