-- ===== src/BoundedBuffer.antt =====
-- kernal/Thread/pro_con.c: one thread in `producer` and one in `consumer`. The shared variables and
-- the buffer's size are declared in no file (kernal/include/pro_con.h is empty): the size is a
-- parameter, and the buffer starts empty. The mutex and the condition variables are those of POSIX.
pub mod Queue
pub mod Invariant
pub mod Laws
mod Tests
use she_x_mini_operating_sys.Base.{
  ℕ, zero, suc, ◌+◌, ◌-◌, ◌%◌, ◌<◌, ◌≡◌, ◌≢◌, Bool, true, false, List, [], ◌∷◌, ◌++◌, update,
}

-- The shared variables; `input` is the source's `in`.
pub record Ring : Type 0 where
  pub buffer : ℕ → ℕ
  pub input : ℕ
  pub out : ℕ
  pub count : ℕ

-- Where a thread is: before it locks the mutex, at the test of its `while` with the mutex locked, past
-- it with the mutex locked, or asleep in `pthread_cond_wait`. A producer holds its item throughout;
-- a producer that `rests` has not drawn one, and a consumer that `rests` is in its `sleep`.
pub data Pc (A : Type 0) : Type 0 where
  rests : Pc A
  wants : A → Pc A
  tests : A → Pc A
  works : A → Pc A
  sleeps : A → Pc A

pub data Nothing : Type 0 where
  nothing : Nothing

pub record System : Type 0 where
  pub ring : Ring
  pub locked : Bool
  pub producer : Pc ℕ
  pub consumer : Pc Nothing

-- The assignments of the producer past its `while`, and those of the consumer.
pub put : ℕ → ℕ → Ring → Ring
put size item r = record {
  buffer = update r.buffer r.input item;
  input = (r.input + 1) % size;
  out = r.out;
  count = r.count + 1;
}

pub take : ℕ → Ring → Ring
take size r = record {
  buffer = r.buffer;
  input = r.input;
  out = (r.out + 1) % size;
  count = r.count - 1;
}

-- `pthread_cond_signal`: a thread that sleeps on the condition goes on to lock the mutex again.
abbrev pub signal : {A : Type 0} → Pc A → Pc A
signal rests = rests
signal (wants a) = wants a
signal (tests a) = tests a
signal (works a) = works a
signal (sleeps a) = wants a

-- One step of a thread, with the items that it puts into the buffer and those that it takes out. The
-- variables are touched only under the mutex, so the assignments, the signal and the unlocking are one
-- step. With `spurious` a sleeping thread may also wake by itself, which POSIX allows.
pub data Step (size : ℕ) (spurious : Bool) (s : System) : List ℕ → List ℕ → System → Type 0 where
  draw :
      (item : ℕ)
      → item < 100
      → s.producer ≡ rests
      → Step size spurious s [] [] (record s { producer = wants item })
  lock_producer :
      (item : ℕ)
      → s.producer ≡ wants item
      → s.locked ≡ false
      → Step size spurious s [] [] (record s { locked = true; producer = tests item })
  full :
      (item : ℕ)
      → s.producer ≡ tests item
      → s.ring.count ≡ size
      → Step size spurious s [] [] (record s { locked = false; producer = sleeps item })
  not_full :
      (item : ℕ)
      → s.producer ≡ tests item
      → s.ring.count ≢ size
      → Step size spurious s [] [] (record s { producer = works item })
  produce :
      (item : ℕ)
      → s.producer ≡ works item
      → Step size spurious s (item ∷ []) [] (record {
        ring = put size item s.ring;
        locked = false;
        producer = rests;
        consumer = signal s.consumer;
      })
  wake_producer :
      (item : ℕ)
      → spurious ≡ true
      → s.producer ≡ sleeps item
      → Step size spurious s [] [] (record s { producer = wants item })
  start_consumer :
      s.consumer ≡ rests → Step size spurious s [] [] (record s { consumer = wants nothing })
  lock_consumer :
      s.consumer ≡ wants nothing
      → s.locked ≡ false
      → Step size spurious s [] [] (record s { locked = true; consumer = tests nothing })
  empty :
      s.consumer ≡ tests nothing
      → s.ring.count ≡ 0
      → Step size spurious s [] [] (record s { locked = false; consumer = sleeps nothing })
  not_empty :
      s.consumer ≡ tests nothing
      → s.ring.count ≢ 0
      → Step size spurious s [] [] (record s { consumer = works nothing })
  consume :
      s.consumer ≡ works nothing
      → Step size spurious s [] (s.ring.buffer s.ring.out ∷ []) (record {
        ring = take size s.ring;
        locked = false;
        producer = signal s.producer;
        consumer = rests;
      })
  wake_consumer :
      spurious ≡ true
      → s.consumer ≡ sleeps nothing
      → Step size spurious s [] [] (record s { consumer = wants nothing })

abbrev pub initial : System
initial = record {
  ring = record { buffer = λ i. 0; input = 0; out = 0; count = 0 };
  locked = false;
  producer = rests;
  consumer = rests;
}

-- The states that the two threads reach, with the items put in and taken out so far.
pub data Reach (size : ℕ) : List ℕ → List ℕ → System → Type 0 where
  start : Reach size [] [] initial
  later :
      {s t : System} {puts gets p g : List ℕ}
      → Reach size puts gets s
      → Step size true s p g t
      → Reach size (puts ++ p) (gets ++ g) t
