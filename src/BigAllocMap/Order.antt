-- ===== src/BigAllocMap/Order.antt =====
-- What it is for a table of src/internals/hashmap.rs to be in order, and a write of one entry.
use oxidalloc.Prelude.{
  ℕ, ◌+◌, ◌<◌, ◌≡◌, ◌≢◌, refl, sym, ap, ◌∙◌, subst, arith, true, false, Option, none, some, dec_lt,
  ℕ_discrete,
}
use oxidalloc.BigAllocMap.Defs.{Entry, Table, BigAllocMeta, put}
use oxidalloc.BigAllocMap.Table.{is_occupied, is_tombstone, is_empty, put-same, put-other}
use oxidalloc.BigAllocMap.Probe.{slot}

-- entry `i` is that of `key`
abbrev pub Holds : Table → (key i : ℕ) → Type 0
Holds table key i = (is_occupied (table i) ≡ true) × ((table i).key ≡ key)

-- entry `i` is of no other key
abbrev pub Spare : Table → (key i : ℕ) → Type 0
Spare table key i = (k : ℕ) → k ≢ key → ¬ Holds table k i

abbrev pub NoKey : (cap : ℕ) → Table → (key : ℕ) → Type 0
NoKey cap table key = (i : ℕ) → i < cap → ¬ Holds table key i

-- a probe of `key` gets to `i` over entries that are not empty
pub record Reach (cap : ℕ) (table : Table) (key i : ℕ) : Type 0 where
  pub turns : ℕ
  pub less : turns < cap
  pub stop : slot cap key turns ≡ i
  pub full : (s : ℕ) → s < turns → is_empty (table (slot cap key s)) ≡ false

pub record Sound (cap : ℕ) (table : Table) : Type 0 where
  pub unique : (key i j : ℕ) → i < cap → j < cap → Holds table key i → Holds table key j → i ≡ j
  pub reach : (key i : ℕ) → i < cap → Holds table key i → Reach cap table key i

-- the first `s` entries of a probe are not empty and not of `key`
abbrev pub Passed : (cap : ℕ) → Table → (key s : ℕ) → Type 0
Passed cap table key s =
    (u : ℕ)
    → u < s
    → (is_empty (table (slot cap key u)) ≡ false) × ¬ Holds table key (slot cap key u)

-- what a key maps to
pub data Finds (cap : ℕ) (table : Table) (key : ℕ) : Option BigAllocMeta → Type 0 where
  found : {i : ℕ} → i < cap → Holds table key i → Finds cap table key (some ((table i).meta))
  absent : NoKey cap table key → Finds cap table key none

pub is_empty-is_occupied : (e : Entry) → is_occupied e ≡ true → is_empty e ≡ false
is_empty-is_occupied e h = ground arith

pub is_tombstone-is_occupied : (e : Entry) → is_occupied e ≡ true → is_tombstone e ≡ false
is_tombstone-is_occupied e h = ground arith

pub is_tombstone-not_occupied : (e : Entry) → is_tombstone e ≡ true → is_occupied e ≡ false
is_tombstone-not_occupied e h = ground arith

pub Finds-none :
    (cap : ℕ) (table : Table) (key : ℕ) → Finds cap table key none → NoKey cap table key
Finds-none cap table key (absent nowhere) = nowhere

module _ (cap : ℕ) (table : Table) (key : ℕ) where
  pub Passed-zero : Passed cap table key 0
  Passed-zero u h = absurd (omega arith)

  pub Passed-suc :
      (s : ℕ)
      → Passed cap table key s
      → is_empty (table (slot cap key s)) ≡ false
      → ¬ Holds table key (slot cap key s)
      → Passed cap table key (s + 1)
  Passed-suc s past busy other u h = elim (ℕ_discrete u s) [
    | yes now ↦ rw now (busy, other)
    | no old ↦ past u (omega arith)
  ]

  pub Passed-Reach :
      (s : ℕ) → Passed cap table key s → s < cap → Reach cap table key (slot cap key s)
  Passed-Reach s past less = record {
    turns = s;
    less = less;
    stop = refl;
    full = λ u h. (past u h).0;
  }

  module _ (sound : Sound cap table) where
    pub NoKey-at_empty :
        (s : ℕ)
        → Passed cap table key s
        → is_empty (table (slot cap key s)) ≡ true
        → NoKey cap table key
    NoKey-at_empty s past free i h held =
        let r = sound.reach key i h held in
        elim (dec_lt (r.turns) s) [
          | yes before ↦ (past (r.turns) before).1 (rw (r.stop) held)
          | no from ↦ elim (dec_lt s (r.turns)) [
            | yes after ↦ let f = r.full s after in cc
            | no not_after ↦
                let e : r.turns ≡ s = omega arith in
                let at_i : slot cap key s ≡ i = subst (λ t. slot cap key t ≡ i) e (r.stop) in
                let busy = is_empty-is_occupied (table i) (held.0) in
                let free_i = subst (λ t. is_empty (table t) ≡ true) at_i free in cc
          ]
        ]

    pub NoKey-at_end : Passed cap table key cap → NoKey cap table key
    NoKey-at_end past i h held =
        let r = sound.reach key i h held in (past (r.turns) (r.less)).1 (rw (r.stop) held)

    -- a key maps to one thing
    pub Finds-unique :
        (a b : Option BigAllocMeta) → Finds cap table key a → Finds cap table key b → a ≡ b
    Finds-unique a b (found {i} p q) (found {i = j} r s) =
        ap (λ t. some ((table t).meta)) (sound.unique key i j p r q s)
    Finds-unique a b (found {i} p q) (absent none_there) = absurd (none_there i p q)
    Finds-unique a b (absent none_there) (found {i = j} r s) = absurd (none_there j r s)
    Finds-unique a b (absent _) (absent _) = refl

-- a write of an entry that is of `key` or of none, over one that is of `key` or of none
module _ (cap : ℕ) (table : Table) (key i : ℕ) (e : Entry) (inside : i < cap)
    (spare : Spare table key i) where
  -- a key of the entry at `i`, and of another
  pub put-Holds : (k j : ℕ) → j ≢ i → Holds (put table i e) k j → Holds table k j
  put-Holds k j h held =
      subst (λ t. (is_occupied t ≡ true) × (t.key ≡ k)) (put-other table i j e h) held

  Holds-put : (k j : ℕ) → j ≢ i → Holds table k j → Holds (put table i e) k j
  Holds-put k j h held =
      subst (λ t. (is_occupied t ≡ true) × (t.key ≡ k)) (sym (put-other table i j e h)) held

  pub here-Holds : (k : ℕ) → Holds (put table i e) k i → (is_occupied e ≡ true) × (e.key ≡ k)
  here-Holds k held = subst (λ t. (is_occupied t ≡ true) × (t.key ≡ k)) (put-same table i e) held

  Reach-put : is_empty e ≡ false → (k j : ℕ) → Reach cap table k j → Reach cap (put table i e) k j
  Reach-put busy k j r = record {
    turns = r.turns;
    less = r.less;
    stop = r.stop;
    full = λ s h. elim (ℕ_discrete (slot cap k s) i) [
      | yes here ↦ rw (here, put-same table i e) busy
      | no other ↦ rw (put-other table i (slot cap k s) e other) (r.full s h)
    ];
  }

  module _ (own : is_occupied e ≡ true → e.key ≡ key) where
    here-key : (k : ℕ) → Holds (put table i e) k i → k ≡ key
    here-key k held = let (busy, same) = here-Holds k held in sym same ∙ own busy

    pub Finds-put :
        (k : ℕ) (o : Option BigAllocMeta)
        → k ≢ key
        → Finds cap table k o
        → Finds cap (put table i e) k o
    Finds-put k o h (found {i = j} p q) = elim (ℕ_discrete j i) [
      | yes here ↦ absurd (spare k h (subst (λ t. Holds table k t) here q))
      | no other ↦
          subst (λ t. Finds cap (put table i e) k (some (t.meta))) (put-other table i j e other)
            (found p (Holds-put k j other q))
    ]
    Finds-put k o h (absent none_there) = absent (λ j p q. elim (ℕ_discrete j i) [
      | yes here ↦ h (here-key k (subst (λ t. Holds (put table i e) k t) here q))
      | no other ↦ none_there j p (put-Holds k j other q)
    ])

    -- the key itself maps to what is written
    pub Finds-put_same : is_occupied e ≡ true → Finds cap (put table i e) key (some (e.meta))
    Finds-put_same busy =
        let held : Holds (put table i e) key i =
          subst (λ t. (is_occupied t ≡ true) × (t.key ≡ key)) (sym (put-same table i e))
            (busy, own busy) in
        subst (λ t. Finds cap (put table i e) key (some (t.meta))) (put-same table i e)
          (found inside held)

    -- The order is kept, if no other entry is of `key` and a probe of it gets to `i`.
    pub Sound-put :
        Sound cap table
        → is_empty e ≡ false
        → ((j : ℕ) → j < cap → j ≢ i → ¬ Holds table key j)
        → Reach cap table key i
        → Sound cap (put table i e)
    Sound-put sound busy alone way = record {
      unique = λ k a b p q ha hb. elim (ℕ_discrete a i) [
        | yes a_here ↦ elim (ℕ_discrete b i) [
          | yes b_here ↦ a_here ∙ sym b_here
          | no b_other ↦
              let same = here-key k (subst (λ t. Holds (put table i e) k t) a_here ha) in
              absurd
                (alone b q b_other (subst (λ t. Holds table t b) same (put-Holds k b b_other hb)))
        ]
        | no a_other ↦ elim (ℕ_discrete b i) [
          | yes b_here ↦
              let same = here-key k (subst (λ t. Holds (put table i e) k t) b_here hb) in
              absurd
                (alone a p a_other (subst (λ t. Holds table t a) same (put-Holds k a a_other ha)))
          | no b_other ↦
              sound.unique k a b p q (put-Holds k a a_other ha) (put-Holds k b b_other hb)
        ]
      ];
      reach = λ k j p held. elim (ℕ_discrete j i) [
        | yes here ↦
            let same = here-key k (subst (λ t. Holds (put table i e) k t) here held) in
            rw (same, here) (Reach-put busy key i way)
        | no other ↦ Reach-put busy k j (sound.reach k j p (put-Holds k j other held))
      ];
    }
