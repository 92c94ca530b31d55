-- ===== src/Slab/Interconnect/Stacks.antt =====
-- The processors' caches of src/slab/interconnect.rs as one list of blocks for each place.
use oxidalloc.Prelude.{
  ℕ, ◌+◌, ◌%◌, ◌^◌, ◌<◌, ◌≡◌, refl, sym, ap, subst, fun_ext, arith, true, false, inl, inr, ==_iff,
  ne→==, List, [], ◌∷◌, ◌++◌, length, length-append, ℕ_discrete, Bool-cases,
}
use native.Mathlib.Nat.{mod-lt}
use oxidalloc.Prelude.Word.{two_pow_pos}
use oxidalloc.Slab.ThreadCache.{ThreadLocalEngine, TlsBin, Headers, set_bin}
use oxidalloc.Slab.ThreadCache.Chain.{mem, distinct, Batch, Batch-mem, ends, goes_on}
use oxidalloc.Slab.ThreadCache.Stacks.{Stacks, put_stack, Holds, New, prepend-Holds, mem-append}
use oxidalloc.Slab.Interconnect.{InterConnectCache, head_pack, head_ptr, head_tag, put_at, push_at}
use oxidalloc.Slab.Interconnect.Tags.{IsBlock, head_ptr-pack}

-- the places without their tags, as the bins of a thread's cache
abbrev pub view : InterConnectCache → ThreadLocalEngine
view c = record {
  tls = λ i. record { head = head_ptr (c.list i); usage = c.usage i };
  headers = c.headers;
}

-- The caches hold the stacks, whose blocks have room for a tag.
pub record Caches (c : InterConnectCache) (stacks : Stacks) : Type 0 where
  pub holds : Holds (view c) stacks
  pub blocks : (i x : ℕ) → mem x (stacks i) ≡ true → IsBlock x
  pub small : (i : ℕ) → length (stacks i) < 2 ^ 64

pub distinct_parts :
    (xs ys : List ℕ)
    → distinct (xs ++ ys) ≡ true
    → (distinct xs ≡ true) × (distinct ys ≡ true) × ((x : ℕ) → mem x xs ≡ true → mem x ys ≡ false)
distinct_parts [] ys e = (refl, e, λ x h. cc)
distinct_parts (x ∷ xs) ys e =
    let (one, two, apart) = distinct_parts xs ys (ground (arith, e)) in
    (
      ground (arith, e, one, mem-append x xs ys),
      two,
      λ y h. elim (ℕ_discrete y x) [
        | yes here ↦ rw here (ground (arith, e, mem-append x xs ys))
        | no other ↦ let d = ne→== y x other in apart y (rw d at h)
      ],
    )

Batch-head : (h : Headers) (tail head : ℕ) (xs : List ℕ) → Batch h tail head xs → mem head xs ≡ true
Batch-head h tail head _ (ends some_block) = let e = (==_iff head head).1 refl in rw e refl
Batch-head h tail head _ (goes_on some_block more) = let e = (==_iff head head).1 refl in rw e refl

pub next_tag : (v : ℕ) → (head_tag v + 1) % 2 ^ 64 < 2 ^ 64
next_tag v = ground (arith, mod-lt ((head_tag v + 1)) (two_pow_pos 64))

module _ (c : InterConnectCache) (stacks : Stacks) (now : Caches c stacks) where
  -- the view after a change of one place
  pub view_after :
      (at head tag usage : ℕ) (h : Headers)
      → IsBlock head
      → tag < 2 ^ 64
      → view (record c {
        list = put_at c.list at (head_pack head tag);
        usage = put_at c.usage at usage;
        headers = h;
      })
        ≡ set_bin (view c) at (record { head = head; usage = usage }) h
  view_after at head tag usage h valid small =
      ap (λ (t : ℕ → TlsBin). record { tls = t; headers = h })
        (fun_ext (λ i. elim (ℕ_discrete i at) [
          | yes here ↦
              let e = (==_iff i at).1 here in
              rw e (
                ap (λ (q : ℕ). record { head = q; usage = usage })
                  (head_ptr-pack head valid tag small))
          | no other ↦ let e = ne→== i at other in rw e refl
        ]))

  -- Pushing a batch of new blocks puts it in front of the place's stack.
  pub push_at-Caches :
      (at head tail batch_size : ℕ) (xs : List ℕ)
      → Batch c.headers tail head xs
      → distinct xs ≡ true
      → New stacks xs
      → ((x : ℕ) → mem x xs ≡ true → IsBlock x)
      → batch_size ≡ length xs
      → length xs + length (stacks at) < 2 ^ 64
      → Caches (push_at at head tail batch_size c) (put_stack stacks at (xs ++ stacks at))
  unfolding push_at
  push_at-Caches at head tail batch_size xs batch single new valid size fits =
      let usage = (c.usage at + batch_size) % 2 ^ 64 in
      let count : usage ≡ length xs + length (stacks at) = omega (arith, now.holds.counted at) in
      record {
        holds =
            subst (λ e. Holds e (put_stack stacks at (xs ++ stacks at)))
              (sym (
                view_after at head _ usage _ (valid head (Batch-head c.headers tail head xs batch))
                  (next_tag (c.list at))))
              (prepend-Holds (view c) stacks now.holds at head tail xs batch single new
                (Batch-mem c.headers tail head xs batch) usage count);
        blocks = λ i x. elim (ℕ_discrete i at) [
          | yes here ↦
              let e = (==_iff i at).1 here in
              rw e (λ h. elim (Bool-cases (mem x xs)) [
                | inl pushed ↦ valid x pushed
                | inr older ↦
                    now.blocks at x (ground (arith, h, older, mem-append x xs (stacks at)))
              ])
          | no other ↦ let e = ne→== i at other in rw e (now.blocks i x)
        ];
        small = λ i. elim (ℕ_discrete i at) [
          | yes here ↦
              let e = (==_iff i at).1 here in rw e (omega (arith, length-append {0} xs (stacks at)))
          | no other ↦ let e = ne→== i at other in rw e (now.small i)
        ];
      }
