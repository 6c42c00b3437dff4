-- ===== src/Util.antt =====
-- Small helpers of the program: pkg/util/splice/splice.go and pkg/util/env/env.go.
pub mod Environment
pub mod Network
pub mod Lease
mod Tests
use zingthings.Base.{Bool, true, false, ◌||◌, Option, none, some, List, [], ◌∷◌, if◌then◌else◌}
use zingthings.Base.Text.{Text, codes, text_eq}
use zingthings.Base.Int.{ℤ}
use zingthings.Base.Decimal.{atoi}

-- Contains, for an array of strings.
unfoldable pub contains : List Text → Text → Bool
contains [] t = false
contains (v ∷ vs) t = let rest = contains vs t in if text_eq v t then true else rest

-- The dynamic types that GetEnvOrDefault tells apart.
pub data Setting : Type 0 where
  string : Text → Setting
  int : ℤ → Setting
  bool : Bool → Setting
  other : Setting

-- strconv.ParseBool: none is its error.
unfoldable pub parse_bool : Text → Option Bool
unfolding contains
parse_bool t =
    if contains
      (codes "1" ∷ codes "t" ∷ codes "T" ∷ codes "true" ∷ codes "TRUE" ∷ codes "True" ∷ []) t
    then some true
    else if contains
        (codes "0" ∷ codes "f" ∷ codes "F" ∷ codes "false" ∷ codes "FALSE" ∷ codes "False" ∷ []) t
    then some false
    else none

convert : Text → Setting → Setting
unfolding parse_bool
convert value (string d) = string value
convert value (int d) = elim (atoi value) [ none ↦ int d | some n ↦ int n ]
convert value (bool d) = elim (parse_bool value) [ none ↦ bool d | some b ↦ bool b ]
convert value other = other

-- `value` is what os.Getenv returns.
unfoldable pub get_env_or_default : Text → Setting → Setting
unfolding convert
get_env_or_default value default = if text_eq value [] then default else convert value default
