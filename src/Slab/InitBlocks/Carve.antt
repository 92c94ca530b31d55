-- ===== src/Slab/InitBlocks/Carve.antt =====
-- `init_blocks` of src/slab/bulk_allocation.rs: its loop, block by block.
use native.Mathlib.Nat.{suc-mul, add-mul, mod-eq_of_lt}
use oxidalloc.Prelude.{
  ℕ, zero, suc, ◌+◌, ◌*◌, ◌^◌, ◌≤◌, ◌<◌, ◌≡◌, ◌≢◌, refl, sym, ◌∙◌, subst, arith, true, false, ◌==◌,
  ==_iff, ne→==, List, [], ◌∷◌, length,
}
use oxidalloc.Slab.ThreadCache.{OxHeader, Headers}
use oxidalloc.Slab.ThreadCache.Chain.{mem, distinct, Batch, ends, goes_on}
use oxidalloc.Slab.InitBlocks.{write, block_at, Carving, carve_one, carve}

write-other : (h : Headers) (x p : ℕ) (o : OxHeader) → p ≢ x → write h x o p ≡ h p
write-other h x p o other = let e = ne→== p x other in rw e refl

write-same : (h : Headers) (x : ℕ) (o : OxHeader) → write h x o x ≡ o
write-same h x o = let e = (==_iff x x).1 refl in rw e refl

-- a write outside of a batch
Batch-frame :
    (h : Headers) (x tail head : ℕ) (o : OxHeader) (xs : List ℕ)
    → mem x xs ≡ false
    → Batch h tail head xs
    → Batch (write h x o) tail head xs
Batch-frame h x tail head o xs out (ends some_block) = ends some_block
Batch-frame h x tail head o xs out (goes_on {xs = ys} some_block more) =
    let other : head ≢ x = λ e. ground (arith, out, e) in
    let out' : mem x ys ≡ false = ground (arith, out) in
    goes_on some_block (
      subst (λ (t : OxHeader). Batch (write h x o) tail (t.next) ys)
        (sym (write-other h x head o other)) (Batch-frame h x tail ((h head).next) o ys out' more))

module _ (base block_size : ℕ) where
  -- blocks `lo` to `lo + n`
  abbrev pub cut : (n lo : ℕ) → List ℕ
  cut zero lo = []
  cut (suc n) lo = block_at base block_size lo ∷ cut n (lo + 1)

  pub length-cut : (n lo : ℕ) → length (cut n lo) ≡ n
  length-cut zero lo = refl
  length-cut (suc n) lo = omega (arith, length-cut n (lo + 1))

  module _ (some_bytes : 0 < block_size) where
    -- the address of a block that fits the address space
    pub block_at-exact :
        (lo n : ℕ)
        → base + (lo + suc n) * block_size ≤ 2 ^ 64
        → block_at base block_size lo ≡ base + lo * block_size
    block_at-exact lo n fits =
        mod-eq_of_lt
          (omega (arith, some_bytes, add-mul lo (suc n) block_size, suc-mul n block_size))

    -- an address below the blocks, or at or above them all, is none of theirs
    cut-above :
        (n lo x : ℕ)
        → base + (lo + n) * block_size ≤ 2 ^ 64
        → x < base + lo * block_size
        → mem x (cut n lo) ≡ false
    cut-above zero lo x fits h = refl
    cut-above (suc n) lo x fits h =
        let e = block_at-exact lo n fits in
        let step : (lo + 1) * block_size ≡ lo * block_size + block_size =
          add-mul lo 1 block_size ∙ (omega arith) in
        let same : lo + 1 + n ≡ lo + suc n = omega arith in
        let fits' : base + (lo + 1 + n) * block_size ≤ 2 ^ 64 =
          subst (λ t. base + t * block_size ≤ 2 ^ 64) (sym same) fits in
        let rest = cut-above n (lo + 1) x fits' (omega (arith, step)) in
        let other = ne→== x (block_at base block_size lo) (λ q. omega (arith, e)) in
        rw (other, rest) refl

    pub cut-distinct :
        (n lo : ℕ) → base + (lo + n) * block_size ≤ 2 ^ 64 → distinct (cut n lo) ≡ true
    cut-distinct zero lo fits = refl
    cut-distinct (suc n) lo fits =
        let e = block_at-exact lo n fits in
        let step : (lo + 1) * block_size ≡ lo * block_size + block_size =
          add-mul lo 1 block_size ∙ (omega arith) in
        let same : lo + 1 + n ≡ lo + suc n = omega arith in
        let fits' : base + (lo + 1 + n) * block_size ≤ 2 ^ 64 =
          subst (λ t. base + t * block_size ≤ 2 ^ 64) (sym same) fits in
        let out =
          cut-above n (lo + 1) (block_at base block_size lo) fits' (omega (arith, e, step)) in
        rw (out, cut-distinct n (lo + 1) fits') refl

  -- after a turn: nothing is cut, or the last `n` blocks from `lo` on are one chain
  pub data Carved (c : Carving) (lo : ℕ) : ℕ → Type 0 where
    fresh : c.head ≡ 0 → Carved c lo 0
    grown : {n : ℕ} → c.head ≢ 0 → Batch (c.headers) (c.tail) (c.head) (cut n lo) → Carved c lo n

  module _ (class freed_magic current_stamp : ℕ) (some_bytes : 0 < block_size)
      (not_null : 0 < base) where
    carve_one-Carved :
        (i n : ℕ) (c : Carving)
        → base + (i + suc n) * block_size ≤ 2 ^ 64
        → Carved c (i + 1) n
        → Carved (carve_one class freed_magic base block_size current_stamp i c) i (suc n)
    carve_one-Carved i n c fits (fresh no_head) =
        let e = block_at-exact some_bytes i n fits in
        let some_block : block_at base block_size i ≢ 0 = λ q. omega (arith, e) in
        let t : c.head == 0 ≡ true = ground (arith, no_head) in
        grown some_block (rw t (ends some_block))
    carve_one-Carved i n c fits (grown some_head batch) =
        let e = block_at-exact some_bytes i n fits in
        let b = block_at base block_size i in
        let some_block : b ≢ 0 = λ q. omega (arith, e) in
        let t = ne→== (c.head) 0 some_head in
        let step : (i + 1) * block_size ≡ i * block_size + block_size =
          add-mul i 1 block_size ∙ (omega arith) in
        let same : i + suc n ≡ i + 1 + n = omega arith in
        let fits' = subst (λ (k : ℕ). base + k * block_size ≤ 2 ^ 64) same fits in
        let out = cut-above some_bytes n (i + 1) b fits' (omega (arith, e, step)) in
        let header : OxHeader = record {
          next = c.head;
          class = class;
          magic = freed_magic;
          life_time = current_stamp;
        } in
        grown some_block (
          rw t (
            goes_on some_block (
              subst
                (λ (o : OxHeader).
                  Batch (write (c.headers) b header) (c.tail) (o.next) (cut n (i + 1)))
                (sym (write-same (c.headers) b header))
                (Batch-frame (c.headers) b (c.tail) (c.head) header (cut n (i + 1)) out batch))))

    pub carve-Carved :
        (i n : ℕ) (c : Carving)
        → base + (i + n) * block_size ≤ 2 ^ 64
        → Carved c i n
        → Carved (carve class freed_magic base block_size current_stamp i c) 0 (i + n)
    unfolding carve
    carve-Carved zero n c fits now =
        let e : n ≡ 0 + n = omega arith in subst (λ k. Carved c 0 k) e now
    carve-Carved (suc i) n c fits now =
        let same : suc i + n ≡ i + suc n = omega arith in
        let up : suc i ≡ i + 1 = omega arith in
        let fits' = subst (λ (k : ℕ). base + k * block_size ≤ 2 ^ 64) same fits in
        subst
          (λ k.
            Carved
              (carve class freed_magic base block_size current_stamp i
                (carve_one class freed_magic base block_size current_stamp i c))
              0 k)
          (sym same)
          (carve-Carved i (suc n) (carve_one class freed_magic base block_size current_stamp i c)
            fits' (carve_one-Carved i n c fits' (subst (λ k. Carved c k n) up now)))

    pub carve-other :
        (i p : ℕ) (c : Carving)
        → ((k : ℕ) → k < i → p ≢ block_at base block_size k)
        → (carve class freed_magic base block_size current_stamp i c).headers p ≡ c.headers p
    unfolding carve
    carve-other zero p c out = refl
    carve-other (suc i) p c out =
        carve-other i p (carve_one class freed_magic base block_size current_stamp i c)
          (λ k h. out k (omega arith))
        ∙ write-other (c.headers) (block_at base block_size i) p _ (out i (omega arith))
