-- ===== src/BoundedBuffer/Laws.antt =====
-- What kernal/Thread/pro_con.c promises: a queue between two threads that exclude one another and
-- do not block one another for ever.
use she_x_mini_operating_sys.Base.{
  ℕ, ◌≤◌, ◌<◌, ◌≡◌, refl, Bool, true, false, ◌&&◌, List, ◌++◌, arith, ◌∙◌, inl, inr, Bool-cases,
  ◌==◌, ==→eq, ==→ne,
}
use she_x_mini_operating_sys.BoundedBuffer.{Ring, Pc, System, Nothing, Step, Reach}
use she_x_mini_operating_sys.BoundedBuffer.Queue.{contents}
use she_x_mini_operating_sys.BoundedBuffer.Invariant.{holds, IsGuarded, reached}

-- In every state that is reached, the items taken out and then those in the buffer are the items put
-- in, each once and in their order, and the buffer holds no more than its size.
pub contents-Reach :
    (size : ℕ) (puts gets : List ℕ) (s : System)
    → 0 < size
    → Reach size puts gets s
    → (puts ≡ gets ++ contents size s.ring) × (s.ring.count ≤ size)
contents-Reach size puts gets s h reach =
    let i = reached size puts gets s h reach in (i.order, i.ring_ok.bounded)

-- No state is reached in which both threads are past their locking of the mutex.
pub exclusion-Reach :
    (size : ℕ) (puts gets : List ℕ) (s : System)
    → 0 < size
    → Reach size puts gets s
    → (holds s.producer && holds s.consumer) ≡ false
exclusion-Reach size puts gets s h reach = (reached size puts gets s h reach).guarded.1

-- Some thread can take a step, without waking by itself.
pub record CanStep (size : ℕ) (s : System) : Type 0 where
  pub puts : List ℕ
  pub gets : List ℕ
  pub next : System
  pub step : Step size false s puts gets next

abbrev at : Ring → Bool → Pc ℕ → Pc Nothing → System
at r l p c = record { ring = r; locked = l; producer = p; consumer = c }

abbrev can :
    {size : ℕ} {s : System} {pl gl : List ℕ} {t : System}
    → Step size false s pl gl t
    → CanStep size s
can {pl = pl} {gl = gl} {t = t} step = record { puts = pl; gets = gl; next = t; step = step }

consumer_holding :
    (size : ℕ) (r : Ring) (l : Bool) (p : Pc ℕ) (c : Pc Nothing)
    → holds c ≡ true
    → CanStep size (at r l p c)
consumer_holding size r l p Pc.rests h = absurd (cc)
consumer_holding size r l p (Pc.wants Nothing.nothing) h = absurd (cc)
consumer_holding size r l p (Pc.tests Nothing.nothing) h = elim (Bool-cases (r.count == 0)) [
  | inl e ↦ can (Step.empty refl (==→eq _ _ e))
  | inr e ↦ can (Step.not_empty refl (==→ne _ _ e))
]
consumer_holding size r l p (Pc.works Nothing.nothing) h = can (Step.consume refl)
consumer_holding size r l p (Pc.sleeps Nothing.nothing) h = absurd (cc)

-- With the producer asleep the consumer can step.
producer_asleep :
    (size : ℕ) (r : Ring) (l : Bool) (item : ℕ) (c : Pc Nothing)
    → 0 < size
    → IsGuarded size r.count l (Pc.sleeps item) c
    → CanStep size (at r l (Pc.sleeps item) c)
producer_asleep size r l item Pc.rests h g = can (Step.start_consumer refl)
producer_asleep size r l item (Pc.wants Nothing.nothing) h g = can (Step.lock_consumer refl g.0)
producer_asleep size r l item (Pc.tests a) h g =
    consumer_holding size r l (Pc.sleeps item) (Pc.tests a) refl
producer_asleep size r l item (Pc.works a) h g =
    consumer_holding size r l (Pc.sleeps item) (Pc.works a) refl
producer_asleep size r l item (Pc.sleeps a) h g = absurd (omega (arith, g.4 refl, g.5 refl))

some_step :
    (size : ℕ) (r : Ring) (l : Bool) (p : Pc ℕ) (c : Pc Nothing)
    → 0 < size
    → IsGuarded size r.count l p c
    → CanStep size (at r l p c)
some_step size r l Pc.rests c h g = can (Step.draw 0 (omega arith) refl)
some_step size r l (Pc.wants item) c h g = elim (Bool-cases (holds c)) [
  | inl held ↦ consumer_holding size r l (Pc.wants item) c held
  | inr unheld ↦ can (Step.lock_producer item refl (g.0 ∙ unheld))
]
some_step size r l (Pc.tests item) c h g = elim (Bool-cases (r.count == size)) [
  | inl e ↦ can (Step.full item refl (==→eq _ _ e))
  | inr e ↦ can (Step.not_full item refl (==→ne _ _ e))
]
some_step size r l (Pc.works item) c h g = can (Step.produce item refl)
some_step size r l (Pc.sleeps item) c h g = producer_asleep size r l item c h g

-- The threads never block one another: in every state that is reached one of them can take a step,
-- and need not wake without a signal for it.
pub step-Reach :
    (size : ℕ) (puts gets : List ℕ) (s : System)
    → 0 < size
    → Reach size puts gets s
    → CanStep size s
step-Reach size puts gets s h reach =
    some_step size s.ring s.locked s.producer s.consumer h
      (reached size puts gets s h reach).guarded
