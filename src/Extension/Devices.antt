-- ===== src/Extension/Devices.antt =====
-- What the channel manager finds after the loops over the devices of a protocol.
use zingthings.Base.{
  ℕ, ◌≡◌, refl, Bool, false, ◌||◌, none, some, List, [], ◌∷◌, if◌then◌else◌, arith,
}
use zingthings.Base.Text.{Text, text_eq}
use zingthings.Base.Dict.{Dict, lookup, lookup-insert, lookup-delete}
use zingthings.Core.Types.{DeviceInfo}
use zingthings.Core.Channel.{register, remove}
use zingthings.Extension.{register_all, remove_all}

-- Whether a protocol has a device.
unfoldable pub has_device : Text → List DeviceInfo → Bool
has_device k [] = false
has_device k (d ∷ ds) = text_eq d.device_id k || has_device k ds

pub lookup-register_all :
    (k : Text) (ds : List DeviceInfo) (a : ℕ) (m : Dict ℕ)
    → lookup k (register_all ds a m) ≡ (if has_device k ds then some a else lookup k m)
unfolding register_all has_device register
lookup-register_all k [] a m = refl
lookup-register_all k (d ∷ ds) a m = ground (
  arith,
  lookup-insert d.device_id k a m,
  lookup-register_all k ds a (register d.device_id a m).1,
)

pub lookup-remove_all :
    (k : Text) (ds : List DeviceInfo) (m : Dict ℕ)
    → lookup k (remove_all ds m) ≡ (if has_device k ds then none else lookup k m)
unfolding remove_all has_device remove
lookup-remove_all k [] m = refl
lookup-remove_all k (d ∷ ds) m =
    ground (arith, lookup-delete d.device_id k m, lookup-remove_all k ds (remove d.device_id m).1)
