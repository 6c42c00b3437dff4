-- ===== src/Util/Environment.antt =====
-- What GetEnvOrDefault returns (pkg/util/env/env.go).
use zingthings.Base.{◌≡◌, refl, Bool, true, false, Option, none, some, [], if◌then◌else◌}
use zingthings.Base.Text.{Text, text_eq}
use zingthings.Base.Int.{ℤ, itoa}
use zingthings.Base.Decimal.{atoi, IsInt64, atoi-itoa, itoa-ne-nil}
use zingthings.Util.{Setting, string, int, bool, other, parse_bool, convert, get_env_or_default}

pub data SettingType : Type 0 where
  string_type int_type bool_type other_type : SettingType

abbrev pub type_of : Setting → SettingType
type_of (string t) = string_type
type_of (int n) = int_type
type_of (bool b) = bool_type
type_of other = other_type

type_of-convert : (value : Text) (d : Setting) → type_of (convert value d) ≡ type_of d
unfolding convert
type_of-convert value (string d) = refl
type_of-convert value (int d) = by_read (atoi value)
  where
    by_read :
        (o : Option ℤ)
        → type_of (elim o as (λ o. Setting) [ none ↦ int d | some n ↦ int n ]) ≡ int_type
    by_read none = refl
    by_read (some n) = refl
type_of-convert value (bool d) = by_read (parse_bool value)
  where
    by_read :
        (o : Option Bool)
        → type_of (elim o as (λ o. Setting) [ none ↦ bool d | some b ↦ bool b ]) ≡ bool_type
    by_read none = refl
    by_read (some b) = refl
type_of-convert value other = refl

pub type_of-get_env_or_default :
    (value : Text) (d : Setting) → type_of (get_env_or_default value d) ≡ type_of d
unfolding get_env_or_default
type_of-get_env_or_default value d = by_empty (text_eq value [])
  where
    by_empty : (b : Bool) → type_of (if b then d else convert value d) ≡ type_of d
    by_empty true = refl
    by_empty false = type_of-convert value d

-- With an int as the default, a variable that holds the decimal text of a 64-bit integer gives that
-- integer, and one that holds no integer gives the default.
pub get_env_or_default-int :
    (d : ℤ)
    → ((n : ℤ) → IsInt64 n → get_env_or_default (itoa n) (int d) ≡ int n)
      × ((value : Text) → atoi value ≡ none → get_env_or_default value (int d) ≡ int d)
unfolding get_env_or_default convert
get_env_or_default-int d = (
  λ n h. rw (itoa-ne-nil n, convert, atoi-itoa n h) refl,
  λ value h. by_empty value (text_eq value []) h,
)
  where
    by_empty :
        (value : Text) (b : Bool)
        → atoi value ≡ none
        → (if b then int d else convert value (int d)) ≡ int d
    by_empty value true h = refl
    by_empty value false h = rw (h, convert) refl
