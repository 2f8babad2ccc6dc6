-- ===== src/Protocol/Handlers.antt =====
-- The Block IO and Disk IO handlers of crates/nextboot-virtio/src/protocol/handlers.rs. A pointer is an
-- option: null, or the memory there, at least as long as the size that the caller passes.
use next_boot.Base.{ℕ, ◌%◌, ◌||◌, not, ◌==◌, if◌then◌else◌, Option, none, some, List, take}
use next_boot.Device.{Outcome, ok, err, panic, ◌>>=◌}
use next_boot.BlockIo.{read_blocks, read_bytes, write_blocks}
use next_boot.Protocol.{UefiStatus, from_error, code, VirtualBlockIoProtocol}

-- `map(|_| Success).unwrap_or_else(UefiStatus::from)`, with what the call leaves: the status, and the
-- result of a call that succeeds.
abbrev pub with_status : {A : Type 0} → Outcome A → Outcome (UefiStatus × Option A)
with_status (ok a) = ok (UefiStatus.success, some a)
with_status (err e) = ok (from_error e, none)
with_status panic = panic

-- The status alone.
abbrev pub status_of : {A : Type 0} → Outcome A → Outcome UefiStatus
status_of (ok a) = ok UefiStatus.success
status_of (err e) = ok (from_error e)
status_of panic = panic

abbrev pub Filled : Type 0
Filled = Outcome (UefiStatus × Option (List ℕ))

unfoldable pub read_blocks_status : VirtualBlockIoProtocol → ℕ → ℕ → ℕ → Option (List ℕ) → Filled
read_blocks_status w media_id lba buffer_size none =
    if buffer_size == 0
    then ok (UefiStatus.success, none)
    else ok (UefiStatus.invalid_parameter, none)
read_blocks_status w media_id lba buffer_size (some memory) =
    if buffer_size == 0
    then ok (UefiStatus.success, none)
    else (if w.media.block_size == 0 || not (buffer_size % w.media.block_size == 0)
        then ok (UefiStatus.bad_buffer_size, none)
        else with_status (read_blocks w.vbio media_id lba (take buffer_size memory)))

unfoldable pub write_blocks_status :
    VirtualBlockIoProtocol → ℕ → ℕ → ℕ → Option (List ℕ) → Outcome UefiStatus
write_blocks_status w media_id lba buffer_size none =
    if buffer_size == 0 then ok UefiStatus.success else ok UefiStatus.invalid_parameter
write_blocks_status w media_id lba buffer_size (some memory) =
    if buffer_size == 0
    then ok UefiStatus.success
    else status_of (write_blocks w.vbio media_id lba (take buffer_size memory))

unfoldable pub read_disk_status : VirtualBlockIoProtocol → ℕ → ℕ → ℕ → Option (List ℕ) → Filled
read_disk_status w media_id offset buffer_size none =
    if buffer_size == 0
    then ok (UefiStatus.success, none)
    else ok (UefiStatus.invalid_parameter, none)
read_disk_status w media_id offset buffer_size (some memory) =
    if buffer_size == 0
    then ok (UefiStatus.success, none)
    else with_status (read_bytes w.vbio media_id offset (take buffer_size memory))

unfoldable pub write_disk_status :
    VirtualBlockIoProtocol → ℕ → ℕ → ℕ → Option (List ℕ) → Outcome UefiStatus
write_disk_status w media_id offset buffer_size none =
    if buffer_size == 0 then ok UefiStatus.success else ok UefiStatus.invalid_parameter
write_disk_status w media_id offset buffer_size (some memory) =
    if buffer_size == 0
    then ok UefiStatus.success
    else status_of (write_blocks w.vbio media_id offset (take buffer_size memory))

-- The handlers get a pointer to the protocol. A `u64` size always fits a `usize` of 64 bits.
unfoldable pub read_blocks_handler :
    Option VirtualBlockIoProtocol → ℕ → ℕ → ℕ → Option (List ℕ) → Outcome (ℕ × Option (List ℕ))
read_blocks_handler none media_id lba buffer_size buffer =
    ok (code UefiStatus.invalid_parameter, none)
read_blocks_handler (some w) media_id lba buffer_size buffer = do
  (status, filled) ← read_blocks_status w media_id lba buffer_size buffer
  ok (code status, filled)

unfoldable pub write_blocks_handler :
    Option VirtualBlockIoProtocol → ℕ → ℕ → ℕ → Option (List ℕ) → Outcome ℕ
write_blocks_handler none media_id lba buffer_size buffer = ok (code UefiStatus.invalid_parameter)
write_blocks_handler (some w) media_id lba buffer_size buffer = do
  status ← write_blocks_status w media_id lba buffer_size buffer
  ok (code status)

unfoldable pub read_disk_handler :
    Option VirtualBlockIoProtocol → ℕ → ℕ → ℕ → Option (List ℕ) → Outcome (ℕ × Option (List ℕ))
read_disk_handler none media_id offset buffer_size buffer =
    ok (code UefiStatus.invalid_parameter, none)
read_disk_handler (some w) media_id offset buffer_size buffer = do
  (status, filled) ← read_disk_status w media_id offset buffer_size buffer
  ok (code status, filled)

unfoldable pub write_disk_handler :
    Option VirtualBlockIoProtocol → ℕ → ℕ → ℕ → Option (List ℕ) → Outcome ℕ
write_disk_handler none media_id offset buffer_size buffer = ok (code UefiStatus.invalid_parameter)
write_disk_handler (some w) media_id offset buffer_size buffer = do
  status ← write_disk_status w media_id offset buffer_size buffer
  ok (code status)
