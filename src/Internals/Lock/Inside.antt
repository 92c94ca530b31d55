-- ===== src/Internals/Lock/Inside.antt =====
-- Who stands behind the lock of src/internals/lock.rs.
use oxidalloc.Prelude.{
  ℕ, ◌≡◌, ◌≢◌, refl, sym, ap, ◌∙◌, subst, Bool, true, false, ==_iff, ne→==, if◌then◌else◌,
  ℕ_discrete,
}
use oxidalloc.Internals.Lock.{
  Place, outside, inside, unlocked, Contenders, move_to, act, lock_step, Reaches, here, step,
  free_lock,
}

-- One thread is behind the lock and it is held, or none is and it is free.
data Held (t : Contenders) : Type 0 where
  by :
      (k : ℕ)
      → t.state ≡ true
      → t.places k ≡ inside
      → ((j : ℕ) → j ≢ k → t.places j ≡ outside)
      → Held t
  by_none : t.state ≡ false → ((j : ℕ) → t.places j ≡ outside) → Held t

moved :
    (t : Contenders) (i : ℕ) (state : Bool) (place : Place)
    → (move_to t i state place).places i ≡ place
moved t i state place = let e = (==_iff i i).1 refl in rw e refl

stayed :
    (t : Contenders) (i j : ℕ) (state : Bool) (place : Place)
    → j ≢ i
    → (move_to t i state place).places j ≡ t.places j
stayed t i j state place other = let e = ne→== j i other in rw e refl

module _ (explicit : Bool) (t : Contenders) (i : ℕ) where
  enters : t.places i ≡ outside → t.state ≡ false → lock_step explicit i t ≡ move_to t i true inside
  unfolding lock_step
  enters at_door free =
      ap (act explicit i t) at_door ∙ ap (λ b. if b then t else move_to t i true inside) free

  spins : t.places i ≡ outside → t.state ≡ true → lock_step explicit i t ≡ t
  unfolding lock_step
  spins at_door held =
      ap (act explicit i t) at_door ∙ ap (λ b. if b then t else move_to t i true inside) held

  drops : t.places i ≡ unlocked → lock_step explicit i t ≡ move_to t i false outside
  unfolding lock_step
  drops e = ap (act explicit i t) e

leaves :
    (t : Contenders) (i : ℕ) → t.places i ≡ inside → lock_step false i t ≡ move_to t i false outside
unfolding lock_step
leaves t i e = ap (act false i t) e

unlocks :
    (t : Contenders) (i : ℕ) → t.places i ≡ inside → lock_step true i t ≡ move_to t i false unlocked
unfolding lock_step
unlocks t i e = ap (act true i t) e

lock_step-Held : (t : Contenders) (i : ℕ) → Held t → Held (lock_step false i t)
lock_step-Held t i (by_none free all) =
    rw (enters false t i (all i) free)
      (by i refl (moved t i true inside) (λ j other. stayed t i j true inside other ∙ all j))
lock_step-Held t i (by k held k_in others) = elim (ℕ_discrete i k) [
  | yes mine ↦
      let i_in : t.places i ≡ inside = ap t.places mine ∙ k_in in
      rw (leaves t i i_in) (
        by_none refl (λ j. elim (ℕ_discrete j i) [
          | yes me ↦ rw me (moved t i false outside)
          | no other ↦ stayed t i j false outside other ∙ others j (λ e. other (e ∙ sym mine))
        ]))
  | no other ↦ rw (spins false t i (others i other) held) (by k held k_in others)
]

Reaches-Held : {t : Contenders} → Reaches false free_lock t → Held t
Reaches-Held here = by_none refl (λ j. refl)
Reaches-Held (step {u} i r) = lock_step-Held u i (Reaches-Held r)

-- In every interleaving of threads that leave by their guard's drop, at most one is behind the lock.
pub Reaches-alone :
    {t : Contenders}
    → Reaches false free_lock t
    → (i j : ℕ) → t.places i ≡ inside
    → t.places j ≡ inside
    → i ≡ j
Reaches-alone {t} r i j one two = alone (Reaches-Held r)
  where
    alone : Held t → i ≡ j
    alone (by_none free all) = let e = all i in cc
    alone (by k held k_in others) = elim (ℕ_discrete i k) [
      | no other ↦ let e = others i other in cc
      | yes i_here ↦ elim (ℕ_discrete j k) [
        | no other ↦ let e = others j other in cc
        | yes j_here ↦ i_here ∙ sym j_here
      ]
    ]

-- For any three threads that call `unlock` before the drop of their guard, as `grow` does, there is
-- an interleaving that puts the second and the third behind the lock at once: the first unlocks, the
-- second locks, the drop of the first guard frees the lock again, and the third locks.
pub Reaches-both_inside :
    (a b c : ℕ)
    → a ≢ b
    → b ≢ c
    → a ≢ c
    → (t : Contenders) × Reaches true free_lock t × (t.places b ≡ inside) × (t.places c ≡ inside)
Reaches-both_inside a b c ab bc ac =
    let t1 = move_to free_lock a true inside in
    let t2 = move_to t1 a false unlocked in
    let t3 = move_to t2 b true inside in
    let t4 = move_to t3 a false outside in
    let t5 = move_to t4 c true inside in
    let door : (j : ℕ) → j ≢ a → t2.places j ≡ outside =
      λ j other. stayed t1 a j false unlocked other ∙ stayed free_lock a j true inside other in
    let go =
      λ (u v : Contenders) (i : ℕ) (e : lock_step true i u ≡ v) (r : Reaches true free_lock u).
        subst (Reaches true free_lock) e (step i r) in
    let r1 = go free_lock t1 a (enters true free_lock a refl refl) here in
    let r2 = go t1 t2 a (unlocks t1 a (moved free_lock a true inside)) r1 in
    let r3 = go t2 t3 b (enters true t2 b (door b (λ e. ab (sym e))) refl) r2 in
    let gone : t3.places a ≡ unlocked = stayed t2 b a true inside ab ∙ moved t1 a false unlocked in
    let r4 = go t3 t4 a (drops true t3 a gone) r3 in
    let c_out : t4.places c ≡ outside =
      stayed t3 a c false outside (λ e. ac (sym e))
      ∙ stayed t2 b c true inside (λ e. bc (sym e))
      ∙ door c (λ e. ac (sym e)) in
    let r5 = go t4 t5 c (enters true t4 c c_out refl) r4 in
    (
      t5,
      r5,
      stayed t4 c b true inside bc
          ∙ stayed t3 a b false outside (λ e. ab (sym e))
          ∙ moved t2 b true inside,
      moved t4 c true inside,
    )
