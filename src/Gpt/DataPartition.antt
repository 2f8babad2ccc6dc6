-- ===== src/Gpt/DataPartition.antt =====
-- `get_data_partition` (crates/nextboot-fs/src/gpt.rs): the first partition with a readable type.
use next_boot.Base.{
  ℕ, Bool, true, false, not, ◌&&◌, ◌||◌, ◌≡◌, refl, sym, ap, ◌∙◌, some, List, [], ◌∷◌, ◌++◌, All,
  Bool-cases, inl, inr, some_inj, arith,
}
use next_boot.Octets.{same_bytes}
use next_boot.Gpt.Types
use next_boot.Gpt.Partition.{GptPartition, is_esp, is_microsoft_basic, is_linux}
use next_boot.Gpt.{GptDisk}
use next_boot.Gpt.Lookup.{find, get_data_partition}

-- The first of the list that passes the test, with those before it.
abbrev pub IsFirst : (GptPartition → Bool) → List GptPartition → GptPartition → Type 0
IsFirst test ps p =
    (before : List GptPartition) × (after : List GptPartition) × (ps ≡ before ++ p ∷ after)
    × All (λ q. test q ≡ false) before
    × (test p ≡ true)

module _ (test : GptPartition → Bool) where
  find-hit :
      (p : GptPartition) (ps : List GptPartition) → test p ≡ true → find test (p ∷ ps) ≡ some p
  find-hit p ps h = rw h

  find-miss :
      (p : GptPartition) (ps : List GptPartition)
      → test p ≡ false
      → find test (p ∷ ps) ≡ find test ps
  find-miss p ps h = rw h

  find-IsFirst :
      (ps : List GptPartition) (p : GptPartition) → find test ps ≡ some p → IsFirst test ps p
  find-IsFirst [] p e = absurd cc
  find-IsFirst (q ∷ ps) p e = elim (Bool-cases (test q)) [
    | inl hit ↦
        let same : q ≡ p = some_inj (sym (find-hit q ps hit) ∙ e) in
        ([], ps, ap (λ x. x ∷ ps) same, tt, ap test (sym same) ∙ hit)
    | inr miss ↦
        let (before, after, parts, all, hit) = find-IsFirst ps p (sym (find-miss q ps miss) ∙ e) in
        (q ∷ before, after, ap (λ xs. q ∷ xs) parts, (miss, all), hit)
  ]

find_ext :
    (f g : GptPartition → Bool)
    → ((p : GptPartition) → f p ≡ g p)
    → (ps : List GptPartition) → find f ps ≡ find g ps
find_ext f g h [] = refl
find_ext f g h (p ∷ ps) = rw (h p, find_ext f g h ps)

pub same_bytes_lem : (xs ys : List ℕ) → same_bytes xs ys ≡ true → xs ≡ ys
same_bytes_lem [] [] h = refl
same_bytes_lem [] (y ∷ ys) h = absurd cc
same_bytes_lem (x ∷ xs) [] h = absurd cc
same_bytes_lem (x ∷ xs) (y ∷ ys) h =
    let head : x ≡ y = ground arith in let tail = same_bytes_lem xs ys (ground arith) in cc

readable : GptPartition → Bool
readable p = is_microsoft_basic p || is_linux p

-- No readable type is that of an ESP.
readable_lem : (p : GptPartition) → readable p ≡ true → is_esp p ≡ false
unfolding readable is_esp is_microsoft_basic is_linux
readable_lem p h = elim (Bool-cases (same_bytes p.type_guid Types.microsoft_basic)) [
  | inl basic ↦ rw (same_bytes_lem p.type_guid Types.microsoft_basic basic)
  | inr not_basic ↦ elim (Bool-cases (same_bytes p.type_guid Types.linux_filesystem)) [
    | inl filesystem ↦ rw (same_bytes_lem p.type_guid Types.linux_filesystem filesystem)
    | inr not_filesystem ↦ elim (Bool-cases (same_bytes p.type_guid Types.linux_lvm)) [
      | inl lvm ↦ rw (same_bytes_lem p.type_guid Types.linux_lvm lvm)
      | inr not_lvm ↦ elim (Bool-cases (same_bytes p.type_guid Types.linux_raid)) [
        | inl raid ↦ rw (same_bytes_lem p.type_guid Types.linux_raid raid)
        | inr not_raid ↦
            let none_of_them : readable p ≡ false =
              rw (not_basic, not_filesystem, not_lvm, not_raid) in
            absurd cc
      ]
    ]
  ]
]

test_lem : (p : GptPartition) → (not (is_esp p) && readable p) ≡ readable p
test_lem p = elim (Bool-cases (readable p)) [
  | inl fit ↦ rw (readable_lem p fit, fit)
  | inr unfit ↦ elim (Bool-cases (is_esp p)) [
    | inl esp ↦ rw (esp, unfit)
    | inr other ↦ rw (other, unfit)
  ]
]

-- The data partition of a disk is the first whose type is Microsoft basic data or one of Linux, and it
-- is not an ESP.
pub get_data_partition-IsFirst :
    (disk : GptDisk) (p : GptPartition)
    → get_data_partition disk ≡ some p
    → IsFirst (λ q. is_microsoft_basic q || is_linux q) disk.partitions p × (is_esp p ≡ false)
unfolding get_data_partition readable
get_data_partition-IsFirst disk p e =
    let found : find readable disk.partitions ≡ some p =
      sym (find_ext (λ q. not (is_esp q) && readable q) readable test_lem disk.partitions) ∙ e in
    let first = find-IsFirst readable disk.partitions p found in
    let (before, after, parts, all, hit) = first in (first, readable_lem p hit)
