-- ===== src/Lib.antt =====
-- NextBoot: a UEFI boot medium that shows image files as virtual disks. This library models the parts of
-- its Rust crates that hold the program's own logic, and proves what makes them correct.
--
-- Parts and files:
--   Base          Boolean tests, lists with native indices, and 64-bit words.
--   Mapping       crates/nextboot-virtio/src/mapping.rs and mapping/byte.rs. A virtual medium is laid over
--                 the disk by segments. `Mapping.Extent` is one segment (`LbaMapping`, `ByteMapping`),
--                 `Mapping.Lba` is `MappingTable` and `Mapping.Bytes` is `ByteMappingTable`; a `&mut self`
--                 method returns the new table. `Mapping.Addresses` writes down what a translation of a
--                 range promises, with no table.
--   Results       `Result` with a panic beside it, and indexing, for the code of every crate.
--   Device        crates/nextboot-virtio/src/model.rs: configuration and errors.
--   BlockIo       crates/nextboot-virtio/src/block_io.rs: `VirtualBlockIo`. It asks the byte table for the
--                 pieces of a range, copies them block by block from the physical reader, and lays the
--                 memory overlays over the buffer. A method that fills `buf` returns the new buffer.
--   Protocol      crates/nextboot-virtio/src/protocol/: the status codes, and the Block IO and Disk IO
--                 handlers; whether an event could be signalled is a parameter.
--   Manager       crates/nextboot-virtio/src/manager.rs: the registry of devices.
--   Menu          crates/nextboot-menu/src/state.rs, with the items of item.rs.
--   Octets, Text  numbers in slices of bytes, and the operations on strings that the crates call.
--   Fs            crates/nextboot-fs/src/error.rs, and checked ranges of the data. `Fs.Blocks` is
--                 block_io.rs, with the device as an argument of the readers; `Fs.Extents` is `FileExtent`
--                 and `push_extent`; `Fs.Chain` is `cluster_chain_extents` of fat32/extent.rs and
--                 exfat/extent.rs, over a record `ClusterMap` of what it asks of a volume, which
--                 `Fs.Fat32` (fat32/fs.rs) and `Fs.ExFat` (exfat/fs.rs) fill, with their `Described`
--                 about the bytes of the boot sector; `Fs.ExFat.Growth` is
--                 exfat/growth.rs. `Fs.Follow` says what following a chain promises. `Fs.Ext4` is ext4.rs,
--                 `Fs.Ext4.Extents` ext4/extents.rs and `Fs.Ext4.Directories` ext4/directories.rs, with
--                 `Fs.Ext4.Legacy` about block pointers; `Fs.Info` is `FileInfo` of types.rs.
--   Image         crates/nextboot-image/src/: `Image` is lib.rs and `push_span`, `Image.Plan` what a plan
--                 means, `Image.Vdi` is vdi.rs and vdi/planner.rs, `Image.Vhdx` is vhdx.rs,
--                 vhdx/planner.rs and vhdx/path.rs, with `Image.Vhdx.Path.Leads` about where a path
--                 leads. A text is the list of its code points.
--   Scanner       crates/nextboot-boot/src/scanner/: the extents of a file, moved from the volume to the
--                 disk (helpers.rs), become a virtual device that reads the file (image_metadata.rs).
--   Initrd        crates/nextboot-boot/src/ventoy_linux.rs: the initrd that is put before that of a Linux
--                 image, with the map of sectors (`Initrd.Sectors`). `Initrd.Cpio` is ventoy_linux/cpio.rs,
--                 the builder and the reader of archives: `Initrd.Cpio.Hex` and `Initrd.Cpio.Entries` are
--                 about one entry, `Initrd.Cpio.Archive` about a whole archive, `Initrd.Cpio.Moved` and
--                 `Initrd.Cpio.Walks` about an archive in another one, `Initrd.Built` about the initrd.
--                 `&mut self` methods of the builder return the new builder.
--   MediaGrow     crates/nextboot-boot/src/media_grow_util.rs: the tables that growing a medium rewrites.
--   Md5           crates/nextboot-config/src/md5.rs: the digest of a password.
--   Gpt           crates/nextboot-fs/src/gpt.rs: the GPT and its entries, the MBR, and the lookups.
--   Examples      runs on small inputs, and each theorem at an input that meets its hypotheses.
--
-- Conventions. Numbers are native; `u64` and `usize` arithmetic of a release build wraps, and `usize` has
-- 64 bits, as on x86_64 and AArch64. A panic (an index out of range, a division by zero) is an outcome
-- of its own. The physical reader is a parameter: what is asked of it is the record `ReadsDisk`, that a
-- read of a block gives the bytes of the disk there. `read_u64` of the byteorder crate is one too: the
-- round trip of an entry asks that it reads eight bytes in little-endian order. The block device under
-- a file system is a parameter, and what is asked of it is `IsDevice`: a read answers with as many bytes
-- as the buffer has, or with an error. An allocation is taken to succeed. What a failed read leaves in
-- the caller's buffer is not modelled.
--
-- Fuel. `range_loop` and `sparse_loop` take one round for each byte or block asked for and one for the
-- end, since each round moves on by at least one; `copy_loop` likewise. `chain_loop` takes one for each
-- block of the file, `payload_loop` and `dir_entries` one for each byte, as an entry has some, and
-- `pad_loop` of Md5 one for each byte that it may add. The theorems on them state that they return.
--
-- Not modelled: `fragmentation_info` (a ratio of floats), the drawing of the menu, calls of UEFI services,
-- the directories of FAT32 and exFAT and the file systems but these and ext4, the decompressors and
-- configuration parsers, the boot flow around the scanner's reads, and the scripts.
pub mod Base
pub mod Mapping
pub mod Results
pub mod Octets
pub mod Text
pub mod Device
pub mod BlockIo
pub mod Protocol
pub mod Manager
pub mod Menu
pub mod Image
pub mod Scanner
pub mod Fs
pub mod Gpt
pub mod Initrd
pub mod Md5
pub mod MediaGrow
pub mod Examples
