-- ===== src/Fs.antt =====
-- crates/nextboot-fs/src/error.rs: the errors of the partition and file system readers, and what these
-- readers share: a range of the data that may lie outside it.
pub mod Blocks
pub mod Extents
pub mod Chain
pub mod Follow
pub mod Fat
pub mod Fat32
pub mod ExFat
pub mod Info
pub mod Ext4
use package.next_boot.Base.{
  ℕ, ◌+◌, ◌-◌, ◌*◌, ◌&&◌, leb, if◌then◌else◌, List, [], ◌∷◌, length, take, drop, checked_add,
}
use package.next_boot.Results.{Result, ok, err, ◌>>=◌, ok_or}

pub data FsError : Type 0 where
  invalid_signature block_size_mismatch file_not_found read_error out_of_memory : FsError
  invalid_path unsupported_fs invalid_argument directory_not_found not_directory : FsError
  not_file file_too_large corrupted : FsError

-- `Result<A, FsError>`, or a panic.
abbrev pub FsResult {ℓ} : Type ℓ → Type ℓ
FsResult A = Result FsError A

-- `checked_slice`: the range `offset..offset + len`, if it lies in the data.
unfoldable pub checked_slice : List ℕ → ℕ → ℕ → FsResult (List ℕ)
checked_slice bytes offset len = do
  end ← ok_or (checked_add offset len) read_error
  if leb offset end && leb end (length bytes)
      then ok (take (end - offset) (drop offset bytes))
      else err read_error
