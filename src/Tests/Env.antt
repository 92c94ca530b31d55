-- ===== src/Tests/Env.antt =====
-- An environment with the variables A and AB, of the values 7 and 42k.
use oxidalloc.Prelude.{◌≡◌, ◌<◌, ◌^◌, refl, arith, List, [], ◌∷◌, some}
use oxidalloc.Outcome.{ok}
use oxidalloc.Env.{Bytes, scan_key, getenv_raw, get_env_usize}
use oxidalloc.Env.Lookup.{First, getenv_raw-First}
use oxidalloc.Env.Number.{value, at_other, get_env_usize-value}

abbrev env : List Bytes
env = (65 ∷ 61 ∷ 55 ∷ []) ∷ (65 ∷ 66 ∷ 61 ∷ 52 ∷ 50 ∷ 107 ∷ []) ∷ []

abbrev key : Bytes
key = 65 ∷ 66 ∷ []

found_value : getenv_raw key env ≡ some (52 ∷ 50 ∷ 107 ∷ [])
unfolding getenv_raw scan_key
found_value = refl

below : value (4 ∷ 2 ∷ []) < 2 ^ 64
unfolding value
below = omega arith

getenv_raw-First_example : First key env (getenv_raw key env)
getenv_raw-First_example = getenv_raw-First key env refl

get_env_usize-value_example : get_env_usize key env ≡ ok (some (value (4 ∷ 2 ∷ [])))
get_env_usize-value_example =
    get_env_usize-value key env (4 ∷ 2 ∷ []) (107 ∷ []) found_value refl (at_other refl) below
