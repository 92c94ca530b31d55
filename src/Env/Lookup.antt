-- ===== src/Env/Lookup.antt =====
-- `getenv_raw` of src/internals/env.rs, and the entries of the environment.
use oxidalloc.Prelude.{
  ℕ, ◌≡◌, ◌≢◌, ap, subst, arith, Bool, false, ◌||◌, List, [], ◌∷◌, ◌++◌, Option, none, some, ◌==◌,
  ==_iff, Bool-cases, inl, inr,
}
use oxidalloc.Env.{Bytes, equals, scan_key, value_after, getenv_raw}

abbrev pub has : ℕ → Bytes → Bool
has c [] = false
has c (x ∷ xs) = c == x || has c xs

-- an entry of the environment, for a key
pub data Reads (key entry : Bytes) : Option Bytes → Type 0 where
  names : (value : Bytes) → entry ≡ key ++ equals ∷ value → Reads key entry (some value)
  differs : ((value : Bytes) → entry ≢ key ++ equals ∷ value) → Reads key entry none

-- the first entry of the environment that names the key
pub data First (key : Bytes) : List Bytes → Option Bytes → Type 0 where
  nowhere : First key [] none
  at_head :
      {entry value : Bytes} {env : List Bytes}
      → entry ≡ key ++ equals ∷ value
      → First key (entry ∷ env) (some value)
  behind :
      {entry : Bytes} {env : List Bytes} {result : Option Bytes}
      → ((value : Bytes) → entry ≢ key ++ equals ∷ value)
      → First key env result
      → First key (entry ∷ env) result

Reads-cons :
    (k : ℕ) (key p : Bytes) (result : Option Bytes)
    → Reads key p result
    → Reads (k ∷ key) (k ∷ p) result
Reads-cons k key p result (names value e) = names value (ap (λ (t : Bytes). k ∷ t) e)
Reads-cons k key p result (differs other) = differs (λ value e. other value cc)

scan_key-Reads :
    (key entry : Bytes)
    → has equals key ≡ false
    → Reads key entry (value_after (scan_key key entry))
unfolding scan_key
scan_key-Reads [] [] clean = differs (λ value e. let no : ⊥ = cc in no)
scan_key-Reads [] (c ∷ p) clean = elim (Bool-cases (c == equals)) [
  | inl same ↦ rw same (names p (ap (λ (t : ℕ). t ∷ p) ((==_iff c equals).0 same)))
  | inr other ↦
      rw other (differs (λ value e. let same : c ≡ equals = cc in ground (arith, same, other)))
]
scan_key-Reads (k ∷ key) [] clean = differs (λ value e. let no : ⊥ = cc in no)
scan_key-Reads (k ∷ key) (c ∷ p) clean = elim (Bool-cases (c == equals)) [
  | inl same ↦
      rw same (differs (λ value e. let first : c ≡ k = cc in ground (arith, first, same, clean)))
  | inr other ↦ elim (Bool-cases (c == k)) [
    | inl first ↦
        rw (other, first)
          (subst (λ t. Reads (k ∷ key) (t ∷ p) (value_after (scan_key key p)))
            ((==_iff k c).0 (ground (arith, first)))
            (Reads-cons k key p _ (scan_key-Reads key p (ground (arith, clean)))))
    | inr apart ↦
        rw (other, apart)
          (differs (λ value e. let first : c ≡ k = cc in ground (arith, first, apart)))
  ]
]

First-step :
    (key entry : Bytes) (env : List Bytes) (here rest : Option Bytes)
    → Reads key entry here
    → First key env rest
    → First key (entry ∷ env) (elim here [ some value ↦ some value | none ↦ rest ])
First-step key entry env here rest (names value e) more = at_head e
First-step key entry env here rest (differs other) more = behind other more

-- For a key without an equals sign, `getenv_raw` gives the value of the first entry that consists of
-- the key, an equals sign and the value, and none when there is no such entry.
pub getenv_raw-First :
    (key : Bytes) (env : List Bytes) → has equals key ≡ false → First key env (getenv_raw key env)
unfolding getenv_raw
getenv_raw-First key [] clean = nowhere
getenv_raw-First key (entry ∷ env) clean =
    First-step key entry env _ _ (scan_key-Reads key entry clean) (getenv_raw-First key env clean)
