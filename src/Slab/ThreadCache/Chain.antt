-- ===== src/Slab/ThreadCache/Chain.antt =====
-- Chains of blocks through their headers, as lists.
use oxidalloc.Prelude.{
  ℕ, ◌≡◌, ◌≢◌, refl, sym, subst, arith, Bool, true, false, ◌&&◌, ◌||◌, not, ◌==◌, ==_iff, ne→==,
  List, [], ◌∷◌, ◌++◌,
}
use oxidalloc.Slab.ThreadCache.{OxHeader, Headers, set_next}

abbrev pub mem : ℕ → List ℕ → Bool
mem p [] = false
mem p (x ∷ xs) = p == x || mem p xs

abbrev pub distinct : List ℕ → Bool
distinct [] = true
distinct (x ∷ xs) = not (mem x xs) && distinct xs

-- the blocks from `head` on, to null
pub data Chain (h : Headers) : (head : ℕ) → List ℕ → Type 0 where
  nothing : Chain h 0 []
  block : {p : ℕ} {xs : List ℕ} → p ≢ 0 → Chain h ((h p).next) xs → Chain h p (p ∷ xs)

-- the blocks from `head` to `tail`, whatever follows
pub data Batch (h : Headers) (tail : ℕ) : (head : ℕ) → List ℕ → Type 0 where
  ends : tail ≢ 0 → Batch h tail tail (tail ∷ [])
  goes_on : {p : ℕ} {xs : List ℕ} → p ≢ 0 → Batch h tail ((h p).next) xs → Batch h tail p (p ∷ xs)

set_next-other : (h : Headers) (x v p : ℕ) → p ≢ x → set_next h x v p ≡ h p
set_next-other h x v p other = let e = ne→== p x other in rw e refl

set_next-same : (h : Headers) (x v : ℕ) → (set_next h x v x).next ≡ v
set_next-same h x v = let e = (==_iff x x).1 refl in rw e refl

-- a write to a header outside the chain
pub Chain-frame :
    (h : Headers) (x v p : ℕ) (xs : List ℕ)
    → mem x xs ≡ false
    → Chain h p xs
    → Chain (set_next h x v) p xs
Chain-frame h x v p xs out nothing = nothing
Chain-frame h x v p xs out (block {xs = ys} some_block rest) =
    let other : p ≢ x = λ e. ground (arith, out, e) in
    let out' : mem x ys ≡ false = ground (arith, out) in
    block some_block (
      subst (λ (o : OxHeader). Chain (set_next h x v) (o.next) ys)
        (sym (set_next-other h x v p other)) (Chain-frame h x v ((h p).next) ys out' rest))

pub Batch-mem :
    (h : Headers) (tail head : ℕ) (xs : List ℕ) → Batch h tail head xs → mem tail xs ≡ true
Batch-mem h tail head xs (ends some_block) = ground arith
Batch-mem h tail head xs (goes_on {xs = ys} some_block more) =
    ground (arith, Batch-mem h tail ((h head).next) ys more)

-- a batch before a chain
pub Batch-Chain :
    (h : Headers) (tail head first : ℕ) (xs ys : List ℕ)
    → distinct xs ≡ true
    → mem tail ys ≡ false
    → Batch h tail head xs
    → Chain h first ys
    → Chain (set_next h tail first) head (xs ++ ys)
Batch-Chain h tail head first xs ys apart out (ends some_block) rest =
    block some_block (rw (set_next-same h tail first) (Chain-frame h tail first first ys out rest))
Batch-Chain h tail head first xs ys apart out (goes_on {xs = zs} some_block more) rest =
    let in_rest = Batch-mem h tail ((h head).next) zs more in
    let other : head ≢ tail = λ e. ground (arith, in_rest, apart, e) in
    let apart' : distinct zs ≡ true = ground (arith, apart) in
    block some_block (
      subst (λ (o : OxHeader). Chain (set_next h tail first) (o.next) (zs ++ ys))
        (sym (set_next-other h tail first head other))
        (Batch-Chain h tail ((h head).next) first zs ys apart' out more rest))
