-- ===== src/Env/Number.antt =====
-- `get_env_usize` of src/internals/env.rs, and decimal numbers.
use native.Mathlib.Nat.{pow-suc, one-le-pow, add-mul, mul_assoc, mul_comm, le-mul_of_pos_right}
use oxidalloc.Prelude.{
  ℕ, suc, ◌+◌, ◌-◌, ◌*◌, ◌^◌, ◌≤◌, ◌<◌, ◌≡◌, refl, ap, sym, ◌∙◌, arith, Bool, true, false, ◌&&◌,
  List, [], ◌∷◌, ◌++◌, map, length, some, leb,
}
use oxidalloc.Outcome.{ok}
use oxidalloc.Env.{Bytes, number_from, getenv_raw, get_env_usize}

-- the number that decimal digits stand for, the first digit the highest
unfoldable pub value : List ℕ → ℕ
value [] = 0
value (d ∷ ds) = d * 10 ^ length ds + value ds

abbrev pub digits_only : List ℕ → Bool
digits_only [] = true
digits_only (d ∷ ds) = leb d 9 && digits_only ds

-- the bytes of digits
abbrev pub text : List ℕ → Bytes
text ds = map (λ d. 48 + d) ds

abbrev pub is_digit : ℕ → Bool
is_digit c = leb 48 c && leb c 57

-- bytes that do not go on with a digit
pub data Stops : Bytes → Type 0 where
  at_end : Stops []
  at_other : {c : ℕ} {p : Bytes} → is_digit c ≡ false → Stops (c ∷ p)

number_from-Stops : (out : ℕ) (rest : Bytes) → Stops rest → number_from out rest ≡ ok out
unfolding number_from
number_from-Stops out [] at_end = refl
number_from-Stops out (c ∷ p) (at_other h) = rw h refl

-- the first digit, moved into what is read
shift_digit :
    (out d : ℕ) (ds : List ℕ)
    → (out * 10 + d) * 10 ^ length ds + value ds ≡ out * 10 ^ length (d ∷ ds) + value (d ∷ ds)
unfolding value
shift_digit out d ds =
    let t = 10 ^ length ds in
    let whole : (out * 10 + d) * t ≡ out * (10 * t) + d * t =
      add-mul (out * 10) d t ∙ ap (λ (x : ℕ). x + d * t) (mul_assoc out 10 t) in
    let ten : 10 * t ≡ 10 ^ suc (length ds) = mul_comm 10 t ∙ sym (pow-suc 10 (length ds)) in
    omega (arith, whole, ap (λ (x : ℕ). out * x) ten)

-- Reading goes on with what has been read.
number_from-value :
    (ds : List ℕ) (rest : Bytes) (out : ℕ)
    → digits_only ds ≡ true
    → Stops rest
    → out * 10 ^ length ds + value ds < 2 ^ 64
    → number_from out (text ds ++ rest) ≡ ok (out * 10 ^ length ds + value ds)
unfolding value number_from
number_from-value [] rest out digits stop fits =
    number_from-Stops out rest stop ∙ ap (λ (n : ℕ). ok n) (omega arith)
number_from-value (d ∷ ds) rest out digits stop fits =
    let small : d ≤ 9 = ground (arith, digits) in
    let more : digits_only ds ≡ true = ground (arith, digits) in
    let test : is_digit (48 + d) ≡ true = ground arith in
    let e = shift_digit out d ds in
    let grows : out * 10 + d ≤ (out * 10 + d) * 10 ^ length ds =
      le-mul_of_pos_right (out * 10 + d) (one-le-pow (length ds) 10 (omega arith)) in
    let digit : out * 10 + (48 + d - 48) ≡ out * 10 + d = omega arith in
    let room : leb (2 ^ 64) (out * 10 + d) ≡ false = ground (arith, e, grows, fits) in
    rw (number_from, test, digit, room)
      (number_from-value ds rest (out * 10 + d) more stop (omega (arith, e))
        ∙ ap (λ (n : ℕ). ok n) e)

-- When the value of the key begins with decimal digits that stand for less than 2 ^ 64, up to its end or
-- the first other byte, `get_env_usize` gives their number.
pub get_env_usize-value :
    (key : Bytes) (env : List Bytes) (ds : List ℕ) (rest : Bytes)
    → getenv_raw key env ≡ some (text ds ++ rest)
    → digits_only ds ≡ true
    → Stops rest
    → value ds < 2 ^ 64
    → get_env_usize key env ≡ ok (some (value ds))
unfolding get_env_usize
get_env_usize-value key env ds rest found digits stop fits =
    let read : number_from 0 (text ds ++ rest) ≡ ok (value ds) =
      number_from-value ds rest 0 digits stop (omega arith) ∙ ap (λ (n : ℕ). ok n) (omega arith) in
    rw (found, get_env_usize) (rw read refl)
