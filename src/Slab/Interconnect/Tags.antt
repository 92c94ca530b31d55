-- ===== src/Slab/Interconnect/Tags.antt =====
-- The tagged heads of src/slab/interconnect.rs.
use oxidalloc.Prelude.{ℕ, ◌%◌, ◌^◌, ◌<◌, ◌≡◌, sym, ap, ◌∙◌, arith, Bool, ◌&&◌, ◌||◌, not, bit_and}
use oxidalloc.Prelude.Word.{
  bit, bit-and, bit-or, bit-complement, bit_ext, bit_and-lt, bit_or-lt, complement, complement-lt,
}
use oxidalloc.Va.Align.{and-complement_mask}
use oxidalloc.Slab.Interconnect.{aba_tag_mask, head_pack, head_ptr, head_tag}

-- an address with room for a tag
pub record IsBlock (p : ℕ) : Type 0 where
  pub word : p < 2 ^ 64
  pub aligned : head_ptr p ≡ p

-- every multiple of 16 is one
pub IsBlock-aligned : (p : ℕ) → p < 2 ^ 64 → p % 16 ≡ 0 → IsBlock p
IsBlock-aligned p word whole = record {
  word = word;
  aligned = and-complement_mask 4 p (omega arith) word ∙ omega arith;
}

untagged : (p t m : Bool) → p ≡ (p && not m) → ((p || (t && m)) && not m) ≡ p
untagged p t m e = ground arith

tag_kept : (p t m : Bool) → p ≡ (p && not m) → ((p || (t && m)) && m) ≡ (t && m)
tag_kept p t m e = ground arith

module _ (p : ℕ) (valid : IsBlock p) where
  own_bits : (j : ℕ) → j < 64 → bit p j ≡ (bit p j && not (bit aba_tag_mask j))
  own_bits j inside =
      sym (ap (λ (q : ℕ). bit q j) valid.aligned)
      ∙ bit-and p (complement aba_tag_mask) j
      ∙ ap (λ b. bit p j && b) (bit-complement aba_tag_mask j (omega arith) inside)

  module _ (tag : ℕ) (small : tag < 2 ^ 64) where
    -- A head gives back the pointer that was packed into it, and the low bits of the tag.
    pub head_ptr-pack : head_ptr (head_pack p tag) ≡ p
    head_ptr-pack =
        bit_ext 64 _ _
          (bit_and-lt 64 _ _
            (bit_or-lt 64 _ _ valid.word (bit_and-lt 64 tag aba_tag_mask small (omega arith)))
            (complement-lt _))
          valid.word
          (λ j inside.
            rw (bit-and, bit-or, bit-and, bit-complement aba_tag_mask j (omega arith) inside)
              (untagged (bit p j) (bit tag j) (bit aba_tag_mask j) (own_bits j inside)))

    pub head_tag-pack : head_tag (head_pack p tag) ≡ bit_and tag aba_tag_mask
    head_tag-pack =
        bit_ext 64 _ _
          (bit_and-lt 64 _ _
            (bit_or-lt 64 _ _ valid.word (bit_and-lt 64 tag aba_tag_mask small (omega arith)))
            (omega arith))
          (bit_and-lt 64 tag aba_tag_mask small (omega arith))
          (λ j inside.
            rw (bit-and, bit-or, bit-and)
              (tag_kept (bit p j) (bit tag j) (bit aba_tag_mask j) (own_bits j inside)))
