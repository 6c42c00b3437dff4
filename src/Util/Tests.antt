-- ===== src/Util/Tests.antt =====
-- The theorems on the settings of the environment (pkg/util/env/env.go) at one example each.
use zingthings.Base.{◌≡◌}
use zingthings.Base.Text.{codes}
use zingthings.Base.Int.{pos}
use zingthings.Util.{int, get_env_or_default}
use zingthings.Util.Environment.{int_type, type_of, type_of-get_env_or_default}

type_of-get_env_or_default_example :
    type_of (get_env_or_default (codes "nine") (int (pos 8080))) ≡ int_type
type_of-get_env_or_default_example = type_of-get_env_or_default (codes "nine") (int (pos 8080))
