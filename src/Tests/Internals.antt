-- ===== src/Tests/Internals.antt =====
-- The lock and the once-cell with two threads, and with three.
use oxidalloc.Prelude.{ℕ, ◌≡◌, ◌≤◌, refl, arith, true, false}
use oxidalloc.Internals.Lock.{
  outside, inside, Contenders, lock_step, Reaches, here, step, free_lock,
}
use oxidalloc.Internals.Lock.Inside.{Reaches-alone, Reaches-both_inside}
use oxidalloc.Internals.Once.{returned, Callers, advance_call, start, next_step, fresh_once}
use oxidalloc.Internals.Once.Called.{Comes-once}

-- thread 0 locks and leaves, and thread 1 locks while thread 2 spins
abbrev handed_over : Contenders
handed_over =
    lock_step false 2 (lock_step false 1 (lock_step false 0 (lock_step false 0 free_lock)))

Reaches-alone_example : ◌≡◌ {A = ℕ} 1 1
unfolding lock_step
Reaches-alone_example =
    Reaches-alone {t = handed_over} (step 2 (step 1 (step 0 (step 0 here)))) 1 1 refl refl

-- thread 2 is kept out
spins_at_door : handed_over.places 2 ≡ outside
unfolding lock_step
spins_at_door = refl

Reaches-both_inside_example :
    (t : Contenders) × Reaches true free_lock t × (t.places 1 ≡ inside) × (t.places 2 ≡ inside)
Reaches-both_inside_example = Reaches-both_inside 0 1 2 (omega arith) (omega arith) (omega arith)

-- two threads load, thread 0 wins and runs the closure, thread 1 spins until the store, and both return
abbrev both_called : Callers
both_called = advance_call 1 (
    advance_call 0 (
      advance_call 0 (
        advance_call 1 (
          advance_call 1
            (advance_call 0 (advance_call 0 (advance_call 1 (advance_call 0 fresh_once))))))))

Comes-once_example :
    (both_called.started ≤ 1)
    × ((i : ℕ) → both_called.stages i ≡ returned → both_called.finished ≡ 1)
Comes-once_example = Comes-once {c = both_called} (
    next_step 1 (
      next_step 0 (
        next_step 0 (
          next_step 1
            (next_step 1 (next_step 0 (next_step 0 (next_step 1 (next_step 0 start)))))))))

-- a thread is behind the call at the end
second_returned : both_called.stages 1 ≡ returned
unfolding advance_call
second_returned = refl
