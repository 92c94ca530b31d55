-- ===== src/Env.antt =====
-- src/internals/env.rs: the value of a variable of the environment, and its number. A C string is the
-- list of its bytes before the null byte, and `key[i..]` stands for the index `i` into the key.
pub mod Lookup
pub mod Number
use oxidalloc.Prelude.{
  ℕ, ◌+◌, ◌-◌, ◌*◌, ◌%◌, ◌^◌, Bool, true, false, ◌&&◌, List, [], ◌∷◌, Option, none, some, leb, ◌==◌,
  if◌then◌else◌,
}
use oxidalloc.Outcome.{Outcome, ok, panic, ◌>>=◌}

abbrev pub Bytes : Type 0
Bytes = List ℕ

-- `b'='`
abbrev pub equals : ℕ
equals = 61

-- the loop over an entry: what is left of the key and of the entry
unfoldable pub scan_key : (key entry : Bytes) → Bytes × Bytes
scan_key [] entry = ([], entry)
scan_key (k ∷ key) [] = (k ∷ key, [])
scan_key (k ∷ key) (c ∷ p) =
    let rest = scan_key key p in
    if c == equals then (k ∷ key, c ∷ p) else if c == k then rest else (k ∷ key, c ∷ p)

-- `if i == key.len() && *p == b'='`
abbrev pub value_after : Bytes × Bytes → Option Bytes
value_after ([], c ∷ p) = if c == equals then some p else none
value_after ([], []) = none
value_after (k ∷ key, p) = none

unfoldable pub getenv_raw : (key : Bytes) (env : List Bytes) → Option Bytes
getenv_raw key [] = none
getenv_raw key (entry ∷ env) =
    let rest = getenv_raw key env in
    elim (value_after (scan_key key entry)) [ some value ↦ some value | none ↦ rest ]

-- the loop over the digits, which panics where the number leaves 64 bits
unfoldable pub number_from : (out : ℕ) → Bytes → Outcome ℕ
number_from out [] = ok out
number_from out (c ∷ p) =
    let next = out * 10 + (c - 48) in
    let rest = number_from next p in
    if leb 48 c && leb c 57 then if leb (2 ^ 64) next then panic else rest else ok out

unfoldable pub get_env_usize : (key : Bytes) (env : List Bytes) → Outcome (Option ℕ)
get_env_usize key env = elim (getenv_raw key env) [
  | some value ↦ number_from 0 value >>= (λ out. ok (some out))
  | none ↦ ok none
]
