-- ===== src/Internals/Lock.antt =====
-- src/internals/lock.rs: `SerialLock` and its guard, run by any number of threads. A step is one access
-- to the lock. A caller leaves by the drop of its guard; `grow` of src/va/bitmap.rs calls `unlock`
-- before, and `explicit` says that the callers do so.
pub mod Inside
use oxidalloc.Prelude.{ℕ, Bool, true, false, ◌==◌, if◌then◌else◌}

-- where a thread stands: before `lock` or spinning in it, behind it, and behind an explicit `unlock`
pub data Place : Type 0 where
  outside : Place
  inside : Place
  unlocked : Place

pub record Contenders : Type 0 where
  pub state : Bool
  pub places : ℕ → Place

abbrev pub move_to : Contenders → (i : ℕ) → (state : Bool) → Place → Contenders
move_to t i state place = record {
  state = state;
  places = λ j. if j == i then place else t.places j;
}

-- `compare_exchange(false, true)`, and the two stores of `false`
abbrev pub act : (explicit : Bool) (i : ℕ) → Contenders → Place → Contenders
act explicit i t outside = if t.state then t else move_to t i true inside
act explicit i t inside = if explicit then move_to t i false unlocked else move_to t i false outside
act explicit i t unlocked = move_to t i false outside

unfoldable pub lock_step : (explicit : Bool) (i : ℕ) → Contenders → Contenders
lock_step explicit i t = act explicit i t (t.places i)

-- the interleavings
pub data Reaches (explicit : Bool) (t : Contenders) : Contenders → Type 0 where
  here : Reaches explicit t t
  step :
      {u : Contenders} (i : ℕ) → Reaches explicit t u → Reaches explicit t (lock_step explicit i u)

abbrev pub free_lock : Contenders
free_lock = record { state = false; places = λ i. outside }
