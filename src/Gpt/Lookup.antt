-- ===== src/Gpt/Lookup.antt =====
-- The partitions of a disk that the boot code asks for (crates/nextboot-fs/src/gpt.rs).
use next_boot.Base.{ℕ, Bool, not, ◌&&◌, ◌||◌, if◌then◌else◌, Option, none, some, List, [], ◌∷◌, map}
use next_boot.Octets.{same_bytes}
use next_boot.Gpt.Partition.{GptPartition, is_esp, is_microsoft_basic, is_linux}
use next_boot.Text.{to_ascii_lowercase}
use next_boot.Gpt.{GptDisk}

-- `iter().find`
abbrev pub find : (GptPartition → Bool) → List GptPartition → Option GptPartition
find test [] = none
find test (p ∷ ps) = if test p then some p else find test ps

unfoldable pub get_esp_partition : GptDisk → Option GptPartition
get_esp_partition disk = find is_esp disk.partitions

unfoldable pub get_data_partition : GptDisk → Option GptPartition
get_data_partition disk =
    find (λ p. not (is_esp p) && (is_microsoft_basic p || is_linux p)) disk.partitions

-- `eq_ignore_ascii_case`
abbrev pub eq_ignore_ascii_case : List ℕ → List ℕ → Bool
eq_ignore_ascii_case xs ys = same_bytes (map to_ascii_lowercase xs) (map to_ascii_lowercase ys)

unfoldable pub find_partition : GptDisk → List ℕ → Option GptPartition
find_partition disk name = find (λ p. eq_ignore_ascii_case p.name name) disk.partitions
