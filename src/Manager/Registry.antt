-- ===== src/Manager/Registry.antt =====
-- Indices that `register` hands out, and what `remove` does to them.
use next_boot.Base.{
  ℕ, zero, suc, ◌+◌, ◌-◌, ◌<◌, ◌≡◌, refl, ◌∙◌, some, none, List, [], ◌∷◌, ◌++◌, length,
  length-append, get_elem?, get_elem?-append, get_elem?-none, arith, ltb, if◌then◌else◌, IsU64,
  true, false,
}
use next_boot.BlockIo.{VirtualBlockIo}
use next_boot.Manager.{VirtualDeviceManager, register, get, remove, remove_at, count}

length-register :
    (m : VirtualDeviceManager) (d : VirtualBlockIo)
    → length (register m d).0.devices ≡ length m.devices + 1
unfolding register
length-register m d = length-append m.devices (d ∷ []) ∙ omega arith

-- While no device was removed, the index that `register` returns is that of the new device, the devices
-- before it keep theirs, and the next index is again the number of devices.
pub get-register :
    (m : VirtualDeviceManager) (d : VirtualBlockIo)
    → m.next_index ≡ length m.devices
    → IsU64 (length m.devices + 1)
    → (get (register m d).0 (register m d).1 ≡ some d)
      × ((i : ℕ) → i < length m.devices → get (register m d).0 i ≡ get m i)
      × ((register m d).0.next_index ≡ length (register m d).0.devices)
unfolding register get
get-register m d e h = (
  get_elem?-append m.devices (d ∷ []) m.next_index ∙ new_last (m.next_index) e,
  λ i hi. get_elem?-append m.devices (d ∷ []) i ∙ ground arith,
  omega (arith, length-append m.devices (d ∷ [])),
)
  where
    new_last :
        (i : ℕ)
        → i ≡ length m.devices
        → (if ltb i (length m.devices)
            then get_elem? m.devices i
            else get_elem? (d ∷ []) (i - length m.devices))
          ≡ some d
    new_last i ei =
        let z : i - length m.devices ≡ 0 = omega arith in
        let no_lt : ltb i (length m.devices) ≡ false = ground arith in rw (no_lt, z)

length-remove_at :
    (xs : List VirtualBlockIo) (i : ℕ) → i < length xs → length (remove_at xs i) + 1 ≡ length xs
length-remove_at [] i h = elim h [ ]
length-remove_at (x ∷ xs) zero h = omega arith
length-remove_at (x ∷ xs) (suc i) h = omega (arith, length-remove_at xs i (omega arith))

get_elem?-remove_at :
    (xs : List VirtualBlockIo) (i j : ℕ)
    → get_elem? (remove_at xs i) j ≡ (if ltb j i then get_elem? xs j else get_elem? xs (j + 1))
get_elem?-remove_at [] i j = ground arith
get_elem?-remove_at (x ∷ xs) zero j = let e : j + 1 ≡ suc j = omega arith in rw e (ground arith)
get_elem?-remove_at (x ∷ xs) (suc i) zero = ground arith
get_elem?-remove_at (x ∷ xs) (suc i) (suc j) =
    let e : suc j + 1 ≡ suc (j + 1) = omega arith in
    rw e (get_elem?-remove_at xs i j ∙ ground arith)

-- `remove` of an index in use gives the device there, and moves every later device down by one.
pub get-remove :
    (m : VirtualDeviceManager) (i : ℕ)
    → i < length m.devices
    → ((remove m i).1 ≡ get m i)
      × (count (remove m i).0 + 1 ≡ count m)
      × ((j : ℕ) → get (remove m i).0 j ≡ (if ltb j i then get m j else get m (j + 1)))
unfolding remove get count
get-remove m i h =
    let e : ltb i (length m.devices) ≡ true = ground arith in
    rw e (refl, length-remove_at m.devices i h, λ j. get_elem?-remove_at m.devices i j)

-- The next index does not follow the devices down: once a device was removed from a registry that was
-- in step, the index that the next `register` returns finds no device.
pub get-register-remove :
    (m : VirtualDeviceManager) (i : ℕ) (d : VirtualBlockIo)
    → m.next_index ≡ length m.devices
    → i < length m.devices
    → get (register (remove m i).0 d).0 (register (remove m i).0 d).1 ≡ none
unfolding register get remove
get-register-remove m i d e h =
    let in_use : ltb i (length m.devices) ≡ true = ground arith in
    rw (in_use) (
      get_elem?-none (remove_at m.devices i ++ d ∷ []) m.next_index (
        omega
          (arith, length-append (remove_at m.devices i) (d ∷ []), length-remove_at m.devices i h)))
