-- ===== src/Manager.antt =====
-- crates/nextboot-virtio/src/manager.rs: the registry of virtual devices.
pub mod Registry
use package.next_boot.Base.{
  ℕ, zero, suc, ltb, if◌then◌else◌, Option, some, none, List, [], ◌∷◌, ◌++◌, length, get_elem?,
  add_u64,
}
use package.next_boot.BlockIo.{VirtualBlockIo}

pub record VirtualDeviceManager : Type 0 where
  pub devices : List VirtualBlockIo
  pub next_index : ℕ

unfoldable pub new : VirtualDeviceManager
new = record { devices = []; next_index = 0 }

-- The new manager and the index handed out.
unfoldable pub register : VirtualDeviceManager → VirtualBlockIo → VirtualDeviceManager × ℕ
register m device = (
  record { devices = m.devices ++ device ∷ []; next_index = add_u64 m.next_index 1 },
  m.next_index,
)

unfoldable pub get : VirtualDeviceManager → ℕ → Option VirtualBlockIo
get m index = get_elem? m.devices index

-- `get_mut`, and what its caller leaves in the place.
unfoldable pub get_mut :
    VirtualDeviceManager → ℕ → (VirtualBlockIo → VirtualBlockIo) → Option VirtualDeviceManager
get_mut m index change = elim (get_elem? m.devices index) [
  | none ↦ none
  | some device ↦ some (record m { devices = replace m.devices index (change device) })
]
  where
    replace : List VirtualBlockIo → ℕ → VirtualBlockIo → List VirtualBlockIo
    replace [] i d = []
    replace (x ∷ xs) zero d = d ∷ xs
    replace (x ∷ xs) (suc i) d = x ∷ replace xs i d

unfoldable pub count : VirtualDeviceManager → ℕ
count m = length m.devices

-- `Vec::remove`
abbrev pub remove_at : List VirtualBlockIo → ℕ → List VirtualBlockIo
remove_at [] i = []
remove_at (x ∷ xs) zero = xs
remove_at (x ∷ xs) (suc i) = x ∷ remove_at xs i

-- The new manager and the device taken out.
unfoldable pub remove : VirtualDeviceManager → ℕ → VirtualDeviceManager × Option VirtualBlockIo
remove m index =
    if ltb index (length m.devices)
    then (record m { devices = remove_at m.devices index }, get_elem? m.devices index)
    else (m, none)
