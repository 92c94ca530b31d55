-- ===== src/Va/Radix/Cells.antt =====
-- One cell of the tree: what `get` gives after `set`.
use oxidalloc.Prelude.{
  ℕ, ◌*◌, ◌<◌, ◌≡◌, ◌≢◌, ◌⊎◌, refl, sym, ap, ◌∙◌, arith, Bool, true, false, inl, inr, Option, none,
  some, leb, ◌==◌, ==_iff, if◌then◌else◌, Bool-cases, Option-cases, ne→==, ℕ_discrete, not_leb→lt,
}
use oxidalloc.Prelude.Word.{and_mask}
use oxidalloc.Outcome.{ok, panic}
use oxidalloc.Va.Radix.{Radix, Page, split, store, get, map_memory, set, radix_max_chunks, l2_size}

-- two chunks in one cell are one chunk
split-inj :
    (a b : ℕ)
    → a < radix_max_chunks
    → b < radix_max_chunks
    → (split a).0 ≡ (split b).0
    → (split a).1 ≡ (split b).1
    → a ≡ b
split-inj a b p q high low = omega (arith, high, low, and_mask 13 a, and_mask 13 b)

-- a page, by what the pointer to it is
abbrev pub page_of : Option Page → Page
page_of none = λ j. 0
page_of (some page) = page

-- what a cell holds
abbrev pub entry : ℕ → Option ℕ
entry v = if v == 0 then none else some v

get-entry :
    (r : Radix) (k : ℕ)
    → k < radix_max_chunks
    → get r k ≡ entry (page_of (r.l1 ((split k).0)) ((split k).1))
unfolding get
get-entry r k h =
    let below : leb radix_max_chunks k ≡ false = ground arith in
    elim (Option-cases (r.l1 ((split k).0))) [
      | inl no_page ↦ rw (below, no_page) refl
      | inr (page, e) ↦ rw (below, e) refl
    ]

get_outside : (r : Radix) (k : ℕ) → leb radix_max_chunks k ≡ true → get r k ≡ none
unfolding get
get_outside r k h = rw h refl

module _ (r : Radix) (c seg : ℕ) (inside : c < radix_max_chunks) where
  abbrev pub stored : Radix
  stored = store r ((split c).0) (page_of (r.l1 ((split c).0))) ((split c).1) seg

  cell_same : (i j : ℕ) → page_of ((store r i (page_of (r.l1 i)) j seg).l1 i) j ≡ seg
  cell_same i j = let a = (==_iff i i).1 refl in let b = (==_iff j j).1 refl in rw (a, b) refl

  cell_other :
      (k : ℕ)
      → k < radix_max_chunks
      → k ≢ c
      → page_of (stored.l1 ((split k).0)) ((split k).1) ≡ page_of (r.l1 ((split k).0)) ((split k).1)
  cell_other k h other = elim (ℕ_discrete ((split k).0) ((split c).0)) [
    | no apart ↦ let e = ne→== ((split k).0) ((split c).0) apart in rw e refl
    | yes same ↦
        let apart : (split k).1 ≢ (split c).1 = λ low. other (split-inj k c h inside same low) in
        let d = (==_iff ((split k).0) ((split c).0)).1 same in
        let e = ne→== ((split k).1) ((split c).1) apart in
        rw (d, e) (ap (λ i. page_of (r.l1 i) ((split k).1)) (sym same))
  ]

  pub get-stored : get stored c ≡ entry seg
  get-stored = get-entry stored c inside ∙ ap entry (cell_same ((split c).0) ((split c).1))

  pub get-other : (k : ℕ) → k ≢ c → get stored k ≡ get r k
  get-other k h = elim (Bool-cases (leb radix_max_chunks k)) [
    | inl out ↦ get_outside stored k out ∙ sym (get_outside r k out)
    | inr within ↦
        let below = not_leb→lt radix_max_chunks k within in
        get-entry stored k below ∙ ap entry (cell_other k below h) ∙ sym (get-entry r k below)
  ]

  -- one write of a chunk inside the tree: it stores, or the system has no memory for a page
  pub set_cases :
      (mmap : ℕ → Bool)
      → (set mmap c seg r ≡ ok stored) ⊎ ((set mmap c seg r ≡ panic) × (mmap (l2_size * 8) ≡ false))
  unfolding set map_memory
  set_cases mmap =
      let below : leb radix_max_chunks c ≡ false = ground arith in
      elim (Option-cases (r.l1 ((split c).0))) [
        | inr (page, e) ↦ inl (rw (below, e) refl)
        | inl no_page ↦ elim (Bool-cases (mmap (l2_size * 8))) [
          | inl room ↦ inl (rw (below, no_page, room) refl)
          | inr no_room ↦ inr (rw (below, no_page, no_room) refl, no_room)
        ]
      ]
