-- ===== src/Internals/Once/Called.antt =====
-- How often the closure of src/internals/once.rs runs, and what holds behind a call.
use oxidalloc.Prelude.{
  ℕ, suc, ◌≤◌, ◌≡◌, ◌≢◌, refl, sym, ap, ◌∙◌, arith, Bool, true, false, ◌==◌, ==_iff, ne→==,
  if◌then◌else◌, ℕ_discrete, inl, inr, ◌⊎◌,
}
use oxidalloc.Internals.Once.{
  Stage, entered, loaded, won, ran, spinning, returned, Callers, at_stage, take_step, advance_call,
  Comes, start, next_step, fresh_once,
}

-- not at the closure, and behind the call only if `over`
abbrev quiet : (over : Bool) → Stage → Bool
quiet over entered = true
quiet over loaded = true
quiet over won = false
quiet over ran = false
quiet over spinning = true
quiet over returned = over

-- the states that the interleavings reach: no thread has won, `k` has, `k` has run the closure, all over
data Phase (c : Callers) : Type 0 where
  idle :
      c.state ≡ 0
      → c.started ≡ 0
      → c.finished ≡ 0
      → ((j : ℕ) → quiet false (c.stages j) ≡ true)
      → Phase c
  busy :
      (k : ℕ)
      → c.state ≡ 1
      → c.started ≡ 1
      → c.finished ≡ 0
      → c.stages k ≡ won
      → ((j : ℕ) → j ≢ k → quiet false (c.stages j) ≡ true)
      → Phase c
  done_by :
      (k : ℕ)
      → c.state ≡ 1
      → c.started ≡ 1
      → c.finished ≡ 1
      → c.stages k ≡ ran
      → ((j : ℕ) → j ≢ k → quiet false (c.stages j) ≡ true)
      → Phase c
  over :
      c.state ≡ 2
      → c.started ≡ 1
      → c.finished ≡ 1
      → ((j : ℕ) → quiet true (c.stages j) ≡ true)
      → Phase c

moved : (c : Callers) (i : ℕ) (s : Stage) → (at_stage i s c).stages i ≡ s
moved c i s = let e = (==_iff i i).1 refl in rw e refl

stayed : (c : Callers) (i j : ℕ) (s : Stage) → j ≢ i → (at_stage i s c).stages j ≡ c.stages j
stayed c i j s other = let e = ne→== j i other in rw e refl

louder : (s : Stage) → quiet false s ≡ true → quiet true s ≡ true
louder entered e = refl
louder loaded e = refl
louder won e = cc
louder ran e = cc
louder spinning e = refl
louder returned e = refl

module _ (i : ℕ) (c : Callers) (s : Stage) where
  -- the other threads stay quiet when `i` moves to a quiet stage
  quiet_after :
      (o : Bool)
      → quiet o s ≡ true
      → (j : ℕ) → (j ≢ i → quiet o (c.stages j) ≡ true)
      → quiet o ((at_stage i s c).stages j) ≡ true
  quiet_after o fine j before = elim (ℕ_discrete j i) [
    | yes me ↦ rw (me, moved c i s) fine
    | no other ↦ rw (stayed c i j s other) (before other)
  ]

  -- a thread that a quiet one is not
  differs :
      (k : ℕ) (loud : Stage)
      → quiet false loud ≡ false
      → c.stages k ≡ loud
      → quiet false (c.stages i) ≡ true
      → k ≢ i
  differs k loud noise at calm me =
      let here : c.stages i ≡ loud = ap c.stages (sym me) ∙ at in
      let bad : quiet false loud ≡ true = ap (quiet false) (sym here) ∙ calm in
      let clash : false ≡ true = sym noise ∙ bad in cc

  -- when a quiet thread moves to a quiet stage, the phase is kept
  keep :
      quiet false s ≡ true
      → quiet false (c.stages i) ≡ true ⊎ (c.state ≡ 2)
      → Phase c
      → Phase (at_stage i s c)
  keep fine was (idle a b d q) = idle a b d (λ j. quiet_after false fine j (λ _. q j))
  keep fine was (over a b d q) = over a b d (λ j. quiet_after true (louder s fine) j (λ _. q j))
  keep fine (inr two) (busy k a b d at q) = absurd (omega arith)
  keep fine (inl calm) (busy k a b d at q) =
      let other = differs k won refl at calm in
      busy k a b d (stayed c i k s other ∙ at)
        (λ j apart. quiet_after false fine j (λ _. q j apart))
  keep fine (inr two) (done_by k a b d at q) = absurd (omega arith)
  keep fine (inl calm) (done_by k a b d at q) =
      let other = differs k ran refl at calm in
      done_by k a b d (stayed c i k s other ∙ at)
        (λ j apart. quiet_after false fine j (λ _. q j apart))

-- behind the call only when it is all over
returns : (i : ℕ) (c : Callers) → c.state ≡ 2 → Phase c → Phase (at_stage i returned c)
returns i c two (idle a b d q) = absurd (omega arith)
returns i c two (busy k a b d at q) = absurd (omega arith)
returns i c two (done_by k a b d at q) = absurd (omega arith)
returns i c two (over a b d q) = over a b d (λ j. quiet_after i c returned true refl j (λ _. q j))

-- the loud thread of a phase is the one that won
mine :
    (i k : ℕ) (c : Callers)
    → quiet false (c.stages i) ≡ false
    → ((j : ℕ) → j ≢ k → quiet false (c.stages j) ≡ true)
    → i ≡ k
mine i k c loud q = elim (ℕ_discrete i k) [ yes same ↦ same | no other ↦ let e = q i other in cc ]

wins :
    (i : ℕ) (c : Callers)
    → c.state ≡ 0
    → Phase c
    → Phase (at_stage i won (record c { state = 1; started = suc c.started }))
wins i c zero (idle a b d q) =
    busy i refl (ap suc b) d (moved c i won)
      (λ j other. ap (quiet false) (stayed c i j won other) ∙ q j)
wins i c zero (busy k a b d at q) = absurd (omega arith)
wins i c zero (done_by k a b d at q) = absurd (omega arith)
wins i c zero (over a b d q) = absurd (omega arith)

runs :
    (i : ℕ) (c : Callers)
    → c.stages i ≡ won
    → Phase c
    → Phase (at_stage i ran (record c { finished = suc c.finished }))
runs i c at (idle a b d q) =
    let e = ap (quiet false) (sym at) ∙ q i in let bad : false ≡ true = e in cc
runs i c at (over a b d q) =
    let e = ap (quiet true) (sym at) ∙ q i in let bad : false ≡ true = e in cc
runs i c at (busy k a b d k_at q) =
    let same = mine i k c (ap (quiet false) at) q in
    done_by i a b (ap suc d) (moved c i ran)
      (λ j other. ap (quiet false) (stayed c i j ran other) ∙ q j (λ e. other (e ∙ sym same)))
runs i c at (done_by k a b d k_at q) =
    let same = mine i k c (ap (quiet false) at) q in
    let e : won ≡ ran = sym at ∙ ap c.stages same ∙ k_at in cc

stores :
    (i : ℕ) (c : Callers)
    → c.stages i ≡ ran
    → Phase c
    → Phase (at_stage i spinning (record c { state = 2 }))
stores i c at (idle a b d q) =
    let e = ap (quiet false) (sym at) ∙ q i in let bad : false ≡ true = e in cc
stores i c at (over a b d q) =
    let e = ap (quiet true) (sym at) ∙ q i in let bad : false ≡ true = e in cc
stores i c at (busy k a b d k_at q) =
    let same = mine i k c (ap (quiet false) at) q in
    let e : ran ≡ won = sym at ∙ ap c.stages same ∙ k_at in cc
stores i c at (done_by k a b d k_at q) =
    let same = mine i k c (ap (quiet false) at) q in
    over refl b d (λ j. elim (ℕ_discrete j i) [
      | yes me ↦ rw (me, moved c i spinning) refl
      | no other ↦
          ap (quiet true) (stayed c i j spinning other)
          ∙ louder (c.stages j) (q j (λ e. other (e ∙ sym same)))
    ])

branch_of :
    (b : Bool) {x y : Callers}
    → (b ≡ true → Phase x)
    → (b ≡ false → Phase y)
    → Phase (if b then x else y)
branch_of true yes_x no_x = yes_x refl
branch_of false yes_x no_x = no_x refl

calm_at :
    (i : ℕ) (c : Callers) (s : Stage)
    → quiet false s ≡ true
    → c.stages i ≡ s
    → quiet false (c.stages i) ≡ true ⊎ (c.state ≡ 2)
calm_at i c s fine at = inl (ap (quiet false) at ∙ fine)

step-Phase : (i : ℕ) (c : Callers) (s : Stage) → c.stages i ≡ s → Phase c → Phase (take_step i c s)
step-Phase i c entered at ph =
    branch_of (c.state == 2) (λ e. returns i c ((==_iff (c.state) 2).0 e) ph)
      (λ e. keep i c loaded refl (calm_at i c entered refl at) ph)
step-Phase i c loaded at ph =
    branch_of (c.state == 0) (λ e. wins i c ((==_iff (c.state) 0).0 e) ph)
      (λ e. keep i c spinning refl (calm_at i c loaded refl at) ph)
step-Phase i c won at ph = runs i c at ph
step-Phase i c ran at ph = stores i c at ph
step-Phase i c spinning at ph =
    branch_of (c.state == 2) (λ e. returns i c ((==_iff (c.state) 2).0 e) ph) (λ e. ph)
step-Phase i c returned at ph = ph

Comes-Phase : {c : Callers} → Comes fresh_once c → Phase c
unfolding advance_call
Comes-Phase start = idle refl refl refl (λ j. refl)
Comes-Phase (next_step {d} i r) = step-Phase i d (d.stages i) refl (Comes-Phase r)

behind :
    {c : Callers} → Phase c → (c.started ≤ 1) × ((i : ℕ) → c.stages i ≡ returned → c.finished ≡ 1)
behind {c} (idle a b d q) = (
  omega arith,
  λ i at. let e = ap (quiet false) (sym at) ∙ q i in let bad : false ≡ true = e in cc,
)
behind {c} (busy k a b d k_at q) = (
  omega arith,
  λ i at.
      let same = mine i k c (ap (quiet false) at) q in
      let e : returned ≡ won = sym at ∙ ap c.stages same ∙ k_at in cc,
)
behind {c} (done_by k a b d k_at q) = (omega arith, λ i at. d)
behind {c} (over a b d q) = (omega arith, λ i at. d)

-- In every interleaving of any number of calls on a fresh once-cell, the closure is started at most once,
-- and when a thread is behind its call the closure has run to its end exactly once.
pub Comes-once :
    {c : Callers}
    → Comes fresh_once c
    → (c.started ≤ 1) × ((i : ℕ) → c.stages i ≡ returned → c.finished ≡ 1)
Comes-once r = behind (Comes-Phase r)
