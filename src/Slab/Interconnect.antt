-- ===== src/Slab/Interconnect.antt =====
-- src/slab/interconnect.rs and src/slab/global.rs: the processors' caches, for the default build, as
-- one thread runs them, where a compare-and-exchange does not fail. Blocks and their headers are as in
-- the threads' caches, and `xor_ptr_general` gives its argument. The caches exist (`ensure_cache`), and
-- `cpu` is what `sched_getcpu` gives, `none` for an error.
pub mod Tags
pub mod Batches
pub mod Stacks
pub mod Pop
pub mod Steal
use oxidalloc.Prelude.{
  ℕ, zero, suc, ◌+◌, ◌-◌, ◌*◌, ◌%◌, ◌^◌, bit_and, bit_or, Option, none, some, leb, ◌==◌,
  if◌then◌else◌,
}
use oxidalloc.Prelude.Word.{complement}
use oxidalloc.Outcome.{Outcome, ok, panic}
use oxidalloc.Slab.Classes.{num_size_classes}
use oxidalloc.Slab.ThreadCache.{Headers, set_next}

abbrev pub aba_tag_mask : ℕ
aba_tag_mask = 2 ^ 4 - 1

abbrev pub head_pack : (ptr tag : ℕ) → ℕ
head_pack ptr tag = bit_or ptr (bit_and tag aba_tag_mask)

abbrev pub head_ptr : ℕ → ℕ
head_ptr val = bit_and val (complement aba_tag_mask)

abbrev pub head_tag : ℕ → ℕ
head_tag val = bit_and val aba_tag_mask

-- `list` and `usage` are the arrays of the processors one behind the other, a place for each class
pub record InterConnectCache : Type 0 where
  pub list : ℕ → ℕ
  pub usage : ℕ → ℕ
  pub ncpu : ℕ
  pub headers : Headers

abbrev pub slot : (cpu class : ℕ) → ℕ
slot cpu class = cpu * num_size_classes + class

abbrev pub put_at : (ℕ → ℕ) → (at value : ℕ) → ℕ → ℕ
put_at f at value i = if i == at then value else f i

abbrev pub or_first : Option ℕ → ℕ
or_first none = 0
or_first (some cpu) = cpu

unfoldable pub push_at : (at head tail batch_size : ℕ) → InterConnectCache → InterConnectCache
push_at at head tail batch_size c =
    let current_head = c.list at in
    record c {
      list = put_at c.list at (head_pack head ((head_tag current_head + 1) % 2 ^ 64));
      usage = put_at c.usage at ((c.usage at + batch_size) % 2 ^ 64);
      headers = set_next c.headers tail (head_ptr current_head);
    }

abbrev pub try_push :
    (cpu : Option ℕ) (class head tail batch_size : ℕ) → InterConnectCache → InterConnectCache
try_push cpu class head tail batch_size c =
    push_at (slot (or_first cpu) class) head tail batch_size c

-- `for _ in 1..batch_size`, with `left` rounds to go: the last block and the count
unfoldable pub walk_batch : (left : ℕ) → Headers → (tail count : ℕ) → ℕ × ℕ
walk_batch zero h tail count = (tail, count)
walk_batch (suc left) h tail count =
    let rest = walk_batch left h (h tail).next (count + 1) in
    if (h tail).next == 0 then (tail, count) else rest

-- behind the tests: the batch from `head` on is taken off
abbrev pub take_batch : (at head : ℕ) → ℕ × ℕ → InterConnectCache → InterConnectCache
take_batch at head (tail, count) c =
    let new_head_enc = (c.headers tail).next in
    record c {
      list = put_at c.list at (head_pack new_head_enc ((head_tag (c.list at) + 1) % 2 ^ 64));
      usage = put_at c.usage at ((c.usage at + 2 ^ 64 - count) % 2 ^ 64);
      headers = set_next c.headers tail 0;
    }

unfoldable pub pop_at : (at batch_size : ℕ) → InterConnectCache → Option ℕ × InterConnectCache
pop_at at batch_size c =
    let head = head_ptr (c.list at) in
    if c.usage at == 0
    then (none, c)
    else if head == 0
    then (none, c)
    else (some head, take_batch at head (walk_batch (batch_size - 1) c.headers head 1) c)

abbrev pub pop : (class batch_size thread_id : ℕ) → InterConnectCache → Option ℕ × InterConnectCache
pop class batch_size thread_id c = pop_at (slot thread_id class) batch_size c

-- the popped blocks, or else what the rest of the search gives
abbrev pub or_else : Option ℕ × InterConnectCache → ℕ × InterConnectCache → ℕ × InterConnectCache
or_else (some block, after) rest = (block, after)
or_else (none, after) rest = rest

-- `for i in 1..ncpu`, with `left` rounds to go
unfoldable pub steal : (left i cpu class batch_size : ℕ) → InterConnectCache → ℕ × InterConnectCache
steal zero i cpu class batch_size c = (0, c)
steal (suc left) i cpu class batch_size c =
    let rest = steal left (i + 1) cpu class batch_size c in
    or_else (pop class batch_size ((cpu + i) % c.ncpu) c) rest

unfoldable pub try_pop :
    (cpu : Option ℕ) (class batch_size : ℕ) → InterConnectCache → ℕ × InterConnectCache
try_pop cpu class batch_size c =
    or_else (pop class batch_size (or_first cpu) c)
      (steal (c.ncpu - 1) 1 (or_first cpu) class batch_size c)

-- `for i in 0..self.ncpu`
unfoldable pub size_from : (left i class total : ℕ) → InterConnectCache → Outcome ℕ
size_from zero i class total c = ok total
size_from (suc left) i class total c =
    let more = total + c.usage (slot i class) in
    let rest = size_from left (i + 1) class more c in if leb (2 ^ 64) more then panic else rest

abbrev pub get_size : (class : ℕ) → InterConnectCache → Outcome ℕ
get_size class c = size_from c.ncpu 0 class 0 c

-- `GlobalHandler`
abbrev pub push_to_global :
    (cpu : Option ℕ) (class head tail batch_size : ℕ) → InterConnectCache → InterConnectCache
push_to_global = try_push

abbrev pub pop_from_global :
    (cpu : Option ℕ) (class batch_size : ℕ) → InterConnectCache → ℕ × InterConnectCache
pop_from_global = try_pop
