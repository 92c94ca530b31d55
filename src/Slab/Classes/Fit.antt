-- ===== src/Slab/Classes/Fit.antt =====
-- `match_size_class` of src/slab/mod.rs, by the table and by the slow path.
use oxidalloc.Prelude.{
  ℕ, zero, suc, ◌+◌, ◌-◌, ◌*◌, ◌%◌, ◌≤◌, ◌<◌, ◌≡◌, refl, ap, ◌∙◌, subst, arith, Bool, true, ◌&&◌,
  ◌||◌, Option, none, some, List, [], ◌∷◌, get_or, ltb, leb, ◌==◌, Bool-cases, inl, inr, ◌⊎◌,
  dec_lt, le→leb, leb→le, not_leb→lt, not_ltb→le, ltb→lt,
}
use oxidalloc.Prelude.Word.{◌>>>◌}
use oxidalloc.Slab.Classes.{
  num_size_classes, size_classes, size_class, class_from, lut_from, size_lut, slow_path_from,
  match_size_class,
}

-- every class below is too small
abbrev pub AllSmall : ℕ → ℕ → ℕ → Type 0
AllSmall lo hi size = (d : ℕ) → lo ≤ d → d < hi → size_class d < size

-- the smallest class that fits
pub record IsBest (size class : ℕ) : Type 0 where
  pub exists : class < num_size_classes
  pub fits : size ≤ size_class class
  pub smallest : AllSmall 0 class size

pub data Matches (size : ℕ) : Option ℕ → Type 0 where
  rejected : (size ≡ 0) ⊎ (2097152 < size) → Matches size none
  matched : {class : ℕ} → IsBest size class → Matches size (some class)

-- the classes are multiples of 16
sixteens : List ℕ → Bool
sixteens [] = true
sixteens (x ∷ xs) = x % 16 == 0 && sixteens xs

sixteens-get_or : (xs : List ℕ) (i : ℕ) → sixteens xs ≡ true → get_or xs i 0 % 16 ≡ 0
unfolding sixteens
sixteens-get_or [] i h = refl
sixteens-get_or (x ∷ xs) zero h = ground arith
sixteens-get_or (x ∷ xs) (suc i) h = sixteens-get_or xs i (ground arith)

size_class-mod : (d : ℕ) → size_class d % 16 ≡ 0
unfolding sixteens
size_class-mod d = sixteens-get_or size_classes d refl

class_from_lem :
    (left class size : ℕ)
    → let r = class_from left class size in
      (class ≤ r)
      × (r ≤ class + left)
      × AllSmall class r size
      × (r < class + left → size ≤ size_class r)
unfolding class_from
class_from_lem zero class size =
    (omega arith, omega arith, λ d p q. absurd (omega arith), λ h. absurd (omega arith))
class_from_lem (suc left) class size = elim (Bool-cases (ltb (size_class class) size)) [
  | inr fits ↦
      rw fits (omega arith, omega arith, λ d p q. absurd (omega arith), λ _. not_ltb→le _ _ fits)
  | inl small ↦
      let (low, high, all, last) = class_from_lem left (class + 1) size in
      rw small (
        omega arith,
        omega arith,
        λ d p q. elim (dec_lt class d) [
          | yes later ↦ all d (omega arith) q
          | no here ↦
              subst (λ t. size_class t < size) (let e : class ≡ d = omega arith in e)
                (ltb→lt _ _ small)
        ],
        λ h. last (omega arith),
      )
]

get_or-lut_from :
    (left i k : ℕ)
    → k < left
    → get_or (lut_from left i) k 0 ≡ class_from num_size_classes 0 ((i + k + 1) * 16) % 256
unfolding lut_from
get_or-lut_from zero i k h = absurd (omega arith)
get_or-lut_from (suc left) i zero h =
    ap (λ (t : ℕ). class_from num_size_classes 0 ((t + 1) * 16) % 256)
      (let e : i ≡ i + 0 = omega arith in e)
get_or-lut_from (suc left) i (suc k) h =
    get_or-lut_from left (i + 1) k (omega arith)
    ∙ ap (λ (t : ℕ). class_from num_size_classes 0 ((t + 1) * 16) % 256)
        (let e : i + 1 + k ≡ i + suc k = omega arith in e)

-- an entry of the table, for a size that it serves
lut-IsBest :
    (size : ℕ) → 0 < size → size ≤ 4096 → IsBest size (get_or size_lut ((size - 1) >>> 4) 0)
unfolding size_lut
lut-IsBest size pos small =
    let k = (size - 1) >>> 4 in
    let c = class_from num_size_classes 0 ((0 + k + 1) * 16) in
    let (low, high, all, last) = class_from_lem num_size_classes 0 ((0 + k + 1) * 16) in
    let below : c < num_size_classes = elim (dec_lt c num_size_classes) [
      | yes b ↦ b
      | no over ↦
          let e : c ≡ 34 = omega arith in
          let top : 2097152 < (0 + k + 1) * 16 =
            subst (λ t. 33 < t → 2097152 < (0 + k + 1) * 16) e (λ q. all 33 (omega arith) q)
              (omega arith) in
          absurd (omega arith)
    ] in
    let byte : c % 256 ≡ c = omega arith in
    let entry : get_or (lut_from 256 0) k 0 ≡ c = get_or-lut_from 256 0 k (omega arith) ∙ byte in
    rw entry (record {
      exists = below;
      fits = omega (arith, last (omega arith));
      smallest = λ d p q. omega (arith, all d p q, size_class-mod d);
    })

slow_path_lem :
    (left class size : ℕ)
    → size ≤ size_class (class + left)
    → (c : ℕ) × (slow_path_from (suc left) class size ≡ some c)
      × (c ≤ class + left)
      × (size ≤ size_class c)
      × AllSmall class c size
unfolding slow_path_from
slow_path_lem zero class size last =
    let e : class + 0 ≡ class = omega arith in
    let fits : size ≤ size_class class = subst (λ t. size ≤ size_class t) e last in
    let test = le→leb size (size_class class) fits in
    (class, rw test, omega arith, fits, λ d p q. absurd (omega arith))
slow_path_lem (suc left) class size last = elim (Bool-cases (leb size (size_class class))) [
  | inl test ↦ (class, rw test, omega arith, leb→le _ _ test, λ d p q. absurd (omega arith))
  | inr small ↦
      let e : class + suc left ≡ class + 1 + left = omega arith in
      let (c, run, high, fits, all) =
        slow_path_lem left (class + 1) size (subst (λ t. size ≤ size_class t) e last) in
      (
        c,
        rw small run,
        omega arith,
        fits,
        λ d p q. elim (dec_lt class d) [
          | yes later ↦ all d (omega arith) q
          | no here ↦
              subst (λ t. size_class t < size) (let e : class ≡ d = omega arith in e)
                (not_leb→lt _ _ small)
        ],
      )
]

slow_path-Matches :
    (size : ℕ) → size ≤ 2097152 → Matches size (slow_path_from num_size_classes 0 size)
slow_path-Matches size small =
    let (c, run, high, fits, all) = slow_path_lem 33 0 size small in
    rw run (matched (record { exists = omega arith; fits = fits; smallest = all }))

-- `match_size_class` rejects 0 and sizes above 2 MiB, and gives the smallest class that fits any
-- other size.
pub match_size_class-Matches : (size : ℕ) → Matches size (match_size_class size)
unfolding match_size_class
match_size_class-Matches size = elim (Bool-cases (size == 0 || ltb 2097152 size)) [
  | inl out ↦ rw out (rejected (ground arith))
  | inr in_range ↦ elim (Bool-cases (leb size 4096 && ltb 0 size)) [
    | inl table ↦ rw (in_range) (rw table (matched (lut-IsBest size (ground arith) (ground arith))))
    | inr slow ↦ rw (in_range) (rw slow (slow_path-Matches size (ground arith)))
  ]
]
