-- ===== src/Mapping.antt =====
-- crates/nextboot-virtio/src/mapping.rs and mapping/byte.rs
pub mod Extent
pub mod Addresses
pub mod Optimize
pub mod Merge
pub mod Lba
pub mod Bytes
