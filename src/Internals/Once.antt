-- ===== src/Internals/Once.antt =====
-- src/internals/once.rs: `Once::call_once`, run by any number of threads with one closure. A step is one
-- access to the state, or the run of the closure.
pub mod Called
use oxidalloc.Prelude.{ℕ, suc, Bool, true, false, ◌==◌, if◌then◌else◌}

-- where a thread stands: at the first load, behind it, behind the exchange that won, behind the run of
-- the closure, in the loop at the end, and behind the call
pub data Stage : Type 0 where
  entered : Stage
  loaded : Stage
  won : Stage
  ran : Stage
  spinning : Stage
  returned : Stage

-- `started` and `finished` count the runs of the closure
pub record Callers : Type 0 where
  pub state : ℕ
  pub stages : ℕ → Stage
  pub started : ℕ
  pub finished : ℕ

abbrev pub at_stage : (i : ℕ) → Stage → Callers → Callers
at_stage i stage c = record c { stages = λ j. if j == i then stage else c.stages j }

abbrev pub take_step : (i : ℕ) → Callers → Stage → Callers
take_step i c entered = if c.state == 2 then at_stage i returned c else at_stage i loaded c
take_step i c loaded =
    if c.state == 0
    then at_stage i won (record c { state = 1; started = suc c.started })
    else at_stage i spinning c
take_step i c won = at_stage i ran (record c { finished = suc c.finished })
take_step i c ran = at_stage i spinning (record c { state = 2 })
take_step i c spinning = if c.state == 2 then at_stage i returned c else c
take_step i c returned = c

unfoldable pub advance_call : (i : ℕ) → Callers → Callers
advance_call i c = take_step i c (c.stages i)

-- the interleavings
pub data Comes (c : Callers) : Callers → Type 0 where
  start : Comes c c
  next_step : {d : Callers} (i : ℕ) → Comes c d → Comes c (advance_call i d)

abbrev pub fresh_once : Callers
fresh_once = record { state = 0; stages = λ i. entered; started = 0; finished = 0 }
