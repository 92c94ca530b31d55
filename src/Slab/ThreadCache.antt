-- ===== src/Slab/ThreadCache.antt =====
-- src/slab/thread_local.rs: the bins of a thread's cache, for the default build, where `xor_ptr`
-- gives its argument. A block is the address of its header, null is 0, and the headers are a store.
pub mod Chain
pub mod Stacks
use oxidalloc.Prelude.{ℕ, ◌+◌, ◌-◌, ◌%◌, ◌^◌, Bool, true, false, ltb, ◌==◌, if◌then◌else◌}
use oxidalloc.Prelude.Word.{u64_max}
use oxidalloc.Outcome.{Outcome, ok, panic}
use oxidalloc.Slab.Classes.{num_size_classes}

pub record OxHeader : Type 0 where
  pub next : ℕ
  pub class : ℕ
  pub magic : ℕ
  pub life_time : ℕ

abbrev pub Headers : Type 0
Headers = ℕ → OxHeader

-- `(*ptr).next = next`
abbrev pub set_next : Headers → (ptr next : ℕ) → Headers
set_next h ptr next p = if p == ptr then record (h p) { next = next } else h p

pub record TlsBin : Type 0 where
  pub head : ℕ
  pub usage : ℕ

pub record ThreadLocalEngine : Type 0 where
  pub tls : ℕ → TlsBin
  pub headers : Headers

abbrev pub set_bin : ThreadLocalEngine → (class : ℕ) → TlsBin → Headers → ThreadLocalEngine
set_bin e class bin headers = record {
  tls = λ c. if c == class then bin else e.tls c;
  headers = headers;
}

-- a class out of range panics, as the array index does, and so does a count below 0
unfoldable pub pop_from_thread : ThreadLocalEngine → (class : ℕ) → Outcome (ℕ × ThreadLocalEngine)
pop_from_thread e class =
    let bin = e.tls class in
    if ltb class num_size_classes
    then (if bin.head == 0
        then ok (0, e)
        else if bin.usage == 0
        then panic
        else ok (
          bin.head,
          set_bin e class (record { head = (e.headers (bin.head)).next; usage = bin.usage - 1 })
              (e.headers),
        ))
    else panic

-- the pushes of one block and of a chain from `head` to `tail`
unfoldable pub push_to_thread_tailed :
    ThreadLocalEngine → (class head tail batch_size : ℕ) → Outcome ThreadLocalEngine
push_to_thread_tailed e class head tail batch_size =
    let bin = e.tls class in
    if ltb class num_size_classes
    then ok (
        set_bin e class (record { head = head; usage = (bin.usage + batch_size) % 2 ^ 64 })
          (set_next (e.headers) tail (bin.head)))
    else panic

unfoldable pub push_to_thread : ThreadLocalEngine → (class head : ℕ) → Outcome ThreadLocalEngine
push_to_thread e class head =
    let bin = e.tls class in
    if ltb class num_size_classes
    then ok (
        set_bin e class (record { head = head; usage = (bin.usage + 1) % 2 ^ 64 })
          (set_next (e.headers) head (bin.head)))
    else panic
