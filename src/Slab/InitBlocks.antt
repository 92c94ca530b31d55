-- ===== src/Slab/InitBlocks.antt =====
-- src/slab/bulk_allocation.rs: `init_blocks`, which cuts the next blocks of a class from its pages.
pub mod Carve
pub mod Pages
use oxidalloc.Prelude.{
  ℕ, zero, suc, ◌+◌, ◌-◌, ◌*◌, ◌/◌, ◌%◌, ◌^◌, min, Bool, true, false, ◌==◌, if◌then◌else◌,
}
use oxidalloc.Slab.ThreadCache.{OxHeader, Headers}

pub record MetaData : Type 0 where
  pub start : ℕ
  pub end : ℕ
  pub next : ℕ

-- `end.saturating_sub(next) / block_size`
abbrev pub remaining_blocks : MetaData → (block_size : ℕ) → ℕ
remaining_blocks metadata block_size = (metadata.end - metadata.next) / block_size

-- `write(ptr, header)`
abbrev pub write : Headers → (ptr : ℕ) → OxHeader → Headers
write h ptr header p = if p == ptr then header else h p

-- `base + i * block_size`
abbrev pub block_at : (base block_size i : ℕ) → ℕ
block_at base block_size i = (base + i * block_size) % 2 ^ 64

pub record Carving : Type 0 where
  pub head : ℕ
  pub tail : ℕ
  pub headers : Headers

-- `freed_magic` is the process's `FREED_MAGIC`
module _ (class freed_magic base block_size current_stamp : ℕ) where
  -- one turn of the loop, for block `i`
  abbrev pub carve_one : (i : ℕ) → Carving → Carving
  carve_one i c =
      let current_header = block_at base block_size i in
      record {
        head = current_header;
        tail = if c.head == 0 then current_header else c.tail;
        headers = write (c.headers) current_header (record {
          next = c.head;
          class = class;
          magic = freed_magic;
          life_time = current_stamp;
        });
      }

  -- `for i in (0..count).rev()`
  unfoldable pub carve : (count : ℕ) → Carving → Carving
  carve zero c = c
  carve (suc i) c = carve i (carve_one i c)

-- the result: head, tail and count, the metadata and the headers after it
pub record Blocks : Type 0 where
  pub head : ℕ
  pub tail : ℕ
  pub count : ℕ
  pub metadata : MetaData
  pub headers : Headers

unfoldable pub init_blocks :
    (freed_magic class : ℕ)
    → MetaData
    → (block_size max_blocks current_stamp : ℕ) → Headers
    → Blocks
init_blocks freed_magic class metadata block_size max_blocks current_stamp h =
    let remaining = remaining_blocks metadata block_size in
    if remaining == 0
    then record { head = 0; tail = 0; count = 0; metadata = metadata; headers = h }
    else let count = min remaining max_blocks in
      let base = metadata.next in
      let done =
        carve class freed_magic base block_size current_stamp count
          (record { head = 0; tail = 0; headers = h }) in
      record {
        head = done.head;
        tail = done.tail;
        count = count;
        metadata = record metadata { next = (base + count * block_size) % 2 ^ 64 };
        headers = done.headers;
      }
