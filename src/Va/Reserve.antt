-- ===== src/Va/Reserve.antt =====
-- src/va/bitmap.rs: `get_va_from_kernel`, the reservation of address space, with its process-wide
-- variables as a record. `mmap` and `getrandom` are the system's answers, by the number of the call.
pub mod Halving
use oxidalloc.Prelude.{
  ℕ, zero, suc, ◌+◌, ◌*◌, ◌/◌, ◌%◌, ◌^◌, Bool, true, false, ◌&&◌, ◌||◌, not, Option, none, some,
  ltb, leb, ◌==◌, if◌then◌else◌,
}
use oxidalloc.Outcome.{Outcome, ok, panic, out_of_fuel, ◌>>=◌}
use oxidalloc.Va.Align.{align_to}
use oxidalloc.Va.Radix.{chunk_size}

-- `BASE_HINT`, `BASE_INIT`, `RESERVE`, `LATEST_TRIED`, `OX_MAX_RESERVATION`; `calls` counts the calls of
-- the system
pub record Reserve : Type 0 where
  pub base_hint : ℕ
  pub base_init : Bool
  pub reserve : ℕ
  pub latest_tried : ℕ
  pub max_reservation : ℕ
  pub calls : ℕ

-- a reserved range: its start, its end and its size
pub record Range : Type 0 where
  pub output : ℕ
  pub end : ℕ
  pub size : ℕ

-- the state after a reservation of `size` bytes at `output`
abbrev pub reserved : Reserve → (output size : ℕ) → Reserve
reserved r output size = record r {
  latest_tried = if ltb r.latest_tried size then size else r.latest_tried;
  base_hint = if r.base_init then r.base_hint + size else output;
  base_init = true;
  calls = suc r.calls;
}

-- `MAX_SIZE`, and the count of the first reservations
abbrev pub max_size : Reserve → ℕ × Reserve
max_size r =
    if ltb 3 r.reserve
    then (r.latest_tried, r)
    else (r.max_reservation, record r { reserve = (r.reserve + 1) % 256 })

abbrev pub target_of : Reserve → ℕ
target_of r = if r.base_init then r.base_hint else 0

-- does `BASE_HINT += size` leave 64 bits?
abbrev pub hint_full : Reserve → (size : ℕ) → Bool
hint_full r size = leb (2 ^ 64) (r.base_hint + size)

-- the state of the next turn, after a refusal
abbrev pub halved : Reserve → (size : ℕ) → Reserve
halved r size = record r { base_hint = r.base_hint + size; calls = suc r.calls }

-- the first size that is asked for
abbrev pub first_size : Reserve → ℕ
first_size hinted =
    let size = (max_size hinted).0 in if ltb size chunk_size then chunk_size else size

module _ (mmap : (call target size : ℕ) → Option ℕ) (getrandom : (call : ℕ) → Option ℕ) where
  unfoldable pub randomize_base_hint : Reserve → Outcome Reserve
  unfolding align_to
  randomize_base_hint r = if r.latest_tried == 0 then ok r else elim (getrandom r.calls) [
    | none ↦ panic
    | some rand ↦ ok (record r {
      base_hint = (r.base_hint + align_to (rand % r.latest_tried) 4096) % 2 ^ 64;
      calls = suc r.calls;
    })
  ]

  -- `loop`: every turn that goes on halves the size
  unfoldable pub probe : (fuel size : ℕ) → Reserve → Outcome (Option Range × Reserve)
  probe zero size r = out_of_fuel
  probe (suc fuel) size r = elim (mmap r.calls (target_of r) size) [
    | some output ↦
        if r.base_init && hint_full r size || leb (2 ^ 64) (output + size)
        then panic
        else ok (
          some (record { output = output; end = output + size; size = size }),
          reserved r output size,
        )
    | none ↦ elim (leb size chunk_size) [
      | true ↦
          if r.base_init
          then ok (none, record r { base_init = false; calls = suc r.calls })
          else panic
      | false ↦
          let rest = probe fuel (size / 2) (halved r size) in
          if hint_full r size then panic else rest
    ]
  ]

  unfoldable pub get_va_from_kernel : Reserve → Outcome (Option Range × Reserve)
  get_va_from_kernel r = do
    hinted ← randomize_base_hint r
    probe 64 (first_size hinted) (max_size hinted).1
