-- ===== src/BoundedBuffer/Tests.antt =====
-- A run of the producer and the consumer of kernal/Thread/pro_con.c, and the theorems along it.
use she_x_mini_operating_sys.Base.{◌≤◌, ◌≡◌, refl, false, [], ◌∷◌, ◌++◌, arith}
use she_x_mini_operating_sys.BoundedBuffer.{Pc, System, put, Step, Reach, initial}
use she_x_mini_operating_sys.BoundedBuffer.Queue.{contents}
use she_x_mini_operating_sys.BoundedBuffer.Laws.{contents-Reach, CanStep, step-Reach}

-- A producer that has put 42 in, in a buffer of two.
abbrev after_put : System
after_put = record {
  ring = put 2 42 initial.ring;
  locked = false;
  producer = Pc.rests;
  consumer = Pc.rests;
}

put_one : Reach 2 (42 ∷ []) [] after_put
unfolding put
put_one =
    Reach.later
      (Reach.later
        (Reach.later (Reach.later Reach.start (Step.draw 42 (omega arith) refl))
          (Step.lock_producer 42 refl refl))
        (Step.not_full 42 refl (λ e. absurd (omega arith))))
      (Step.produce 42 refl)

contents-Reach_example : (42 ∷ [] ≡ [] ++ contents 2 after_put.ring) × (after_put.ring.count ≤ 2)
contents-Reach_example = contents-Reach 2 (42 ∷ []) [] after_put (omega arith) put_one

step-Reach_example : CanStep 2 after_put
step-Reach_example = step-Reach 2 (42 ∷ []) [] after_put (omega arith) put_one
