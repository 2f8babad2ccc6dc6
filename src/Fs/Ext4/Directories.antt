-- ===== src/Fs/Ext4/Directories.antt =====
-- crates/nextboot-fs/src/ext4/directories.rs, and the lookups of ext4.rs: directories as linear lists of
-- entries, and a path followed through them.
use Prim.Native.Nat.{bit_or}
use next_boot.Base.{
  ℕ, zero, suc, ◌+◌, ◌-◌, Bool, false, not, ◌||◌, ◌==◌, leb, ltb, if◌then◌else◌, Option, none, some,
  List, [], ◌∷◌, ◌++◌, length, map,
}
use next_boot.Results.{ok, err, panic, ◌>>=◌, ok_or, index, slice}
use next_boot.Octets.{same_bytes}
use next_boot.Text.{starts_with, to_ascii_lowercase}
use next_boot.Text.Utf8.{from_utf8}
use next_boot.Fs.{FsResult, corrupted, not_directory, not_file, file_not_found}
use next_boot.Fs.Blocks.{alloc_buffer}
use next_boot.Fs.Extents.{FileExtent}
use next_boot.Fs.Info.{FileInfo, new_info, hidden_attribute, parts_of}
use next_boot.Fs.Ext4.{Ext4, Ext4Node, read_u16, read_u32, read_inode, is_dir, is_file}
use next_boot.Fs.Ext4.Extents.{Ext4Extent, extents, file_extents_for_node, read_node_data}

pub record Ext4DirEntry : Type 0 where
  pub inode_number : ℕ
  pub name : List ℕ

-- The entry, unless it names no inode or is "." or "..".
abbrev pub entry_of : ℕ → List ℕ → List Ext4DirEntry
entry_of inode_number name =
    if same_bytes name (46 ∷ []) || same_bytes name (46 ∷ 46 ∷ [])
    then []
    else record { inode_number = inode_number; name = name } ∷ []

-- The `while` loop with fuel. A record has eight bytes at least.
unfoldable pub dir_entries : ℕ → List ℕ → ℕ → FsResult (List Ext4DirEntry)
dir_entries zero bytes offset = panic
dir_entries (suc fuel) bytes offset =
    let round = (do
      inode_number ← read_u32 bytes offset
      rec_len ← read_u16 bytes (offset + 4)
      name_len ← index bytes (offset + 6)
      (if ltb rec_len 8 || ltb (length bytes) (offset + rec_len) || ltb (rec_len - 8) name_len
          then err corrupted
          else (do
            entry ←
                (if inode_number == 0 then ok [] else (do
                  raw ← slice bytes (offset + 8) (offset + 8 + name_len)
                  name ← ok_or (from_utf8 raw) corrupted
                  ok (entry_of inode_number name)))
            rest ← dir_entries fuel bytes (offset + rec_len)
            ok (entry ++ rest)))) in
    if leb (offset + 8) (length bytes) then round else ok []

unfoldable pub read_dir_entries : Ext4 → Ext4Node → FsResult (List Ext4DirEntry)
read_dir_entries v node = do
  blank ← alloc_buffer node.size
  (read, bytes) ← (if length blank == 0 then ok (0, blank) else read_node_data v node 0 blank)
  dir_entries (suc (length bytes)) bytes 0

-- Whether the file has at most one extent; a file whose extents cannot be read does not.
abbrev pub has_one_extent : FsResult (List Ext4Extent) → FsResult Bool
has_one_extent (ok found) = ok (leb (length found) 1)
has_one_extent (err e) = ok false
has_one_extent panic = panic

unfoldable pub info_for_node : Ext4 → List ℕ → Ext4Node → FsResult FileInfo
info_for_node v name node = do
  contiguous ← has_one_extent (extents v node)
  let info = new_info name node.size (is_dir node) node.inode_number
  let attributes =
      (if starts_with name (46 ∷ [])
        then bit_or info.attributes hidden_attribute
        else info.attributes)
  ok (record info { contiguous = contiguous; attributes = attributes })

abbrev pub infos_of : Ext4 → List Ext4DirEntry → FsResult (List FileInfo)
infos_of v [] = ok []
infos_of v (e ∷ entries) = do
  child ← read_inode v e.inode_number
  info ← info_for_node v e.name child
  rest ← infos_of v entries
  ok (info ∷ rest)

unfoldable pub read_dir_node : Ext4 → Ext4Node → FsResult (List FileInfo)
read_dir_node v node = do entries ← read_dir_entries v node; infos_of v entries

-- `entries.iter().find(…)`, without regard to the case of ASCII letters.
abbrev pub find_entry : List ℕ → List Ext4DirEntry → Option ℕ
find_entry part [] = none
find_entry part (e ∷ entries) =
    if same_bytes (map to_ascii_lowercase e.name) (map to_ascii_lowercase part)
    then some e.inode_number
    else find_entry part entries

-- The loop over the parts of the path.
unfoldable pub walk_path : Ext4 → Ext4Node → List (List ℕ) → FsResult Ext4Node
walk_path v node [] = ok node
walk_path v node (part ∷ parts) =
    let next = (do
      entries ← read_dir_entries v node
      inode_number ← ok_or (find_entry part entries) file_not_found
      child ← read_inode v inode_number
      walk_path v child parts) in
    if not (is_dir node) then err not_directory else next

unfoldable pub find_node : Ext4 → List ℕ → FsResult Ext4Node
find_node v path = do root ← read_inode v 2; walk_path v root (parts_of path)

-- `path.rsplit('/').find(|part| !part.is_empty())`, or "/".
abbrev pub last_part : List (List ℕ) → List ℕ
last_part [] = 47 ∷ []
last_part (part ∷ []) = part
last_part (part ∷ next ∷ parts) = last_part (next ∷ parts)

unfoldable pub path_name : List ℕ → List ℕ
path_name path = last_part (parts_of path)

unfoldable pub read_dir : Ext4 → List ℕ → FsResult (List FileInfo)
read_dir v path = do
  node ← find_node v path
  (if not (is_dir node) then err not_directory else read_dir_node v node)

unfoldable pub read_file : Ext4 → List ℕ → ℕ → List ℕ → FsResult (ℕ × List ℕ)
read_file v path offset buf = do
  node ← find_node v path
  (if not (is_file node) then err not_file else read_node_data v node offset buf)

unfoldable pub stat : Ext4 → List ℕ → FsResult FileInfo
stat v path = do node ← find_node v path; info_for_node v (path_name path) node

unfoldable pub file_extents : Ext4 → List ℕ → FsResult (List FileExtent)
file_extents v path = do
  node ← find_node v path
  (if not (is_file node) then err not_file else file_extents_for_node v node)
