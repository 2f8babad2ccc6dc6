-- ===== src/Fs/Info.antt =====
-- `FileInfo` (crates/nextboot-fs/src/types.rs) and paths as the readers of the file systems take them. A name
-- is the list of its characters, the attributes are a byte.
use next_boot.Base.{ℕ, Bool, false, if◌then◌else◌, List, [], ◌∷◌}
use next_boot.Text.{split_on}

-- `FileAttributes::HIDDEN`, `FileAttributes::DIRECTORY`
abbrev pub hidden_attribute : ℕ
hidden_attribute = 0x02

abbrev pub directory_attribute : ℕ
directory_attribute = 0x10

pub record FileInfo : Type 0 where
  pub name : List ℕ
  pub size : ℕ
  pub is_dir : Bool
  pub attributes : ℕ
  pub start_cluster : ℕ
  pub contiguous : Bool

unfoldable pub new_info : List ℕ → ℕ → Bool → ℕ → FileInfo
new_info name size is_dir start_cluster = record {
  name = name;
  size = size;
  is_dir = is_dir;
  attributes = if is_dir then directory_attribute else 0;
  start_cluster = start_cluster;
  contiguous = false;
}

-- `path.split('/').filter(|part| !part.is_empty())`
abbrev pub parts_of : List ℕ → List (List ℕ)
parts_of path = nonempty_parts (split_on 47 path)
  where
    nonempty_parts : List (List ℕ) → List (List ℕ)
    nonempty_parts [] = []
    nonempty_parts ([] ∷ parts) = nonempty_parts parts
    nonempty_parts ((c ∷ cs) ∷ parts) = (c ∷ cs) ∷ nonempty_parts parts
