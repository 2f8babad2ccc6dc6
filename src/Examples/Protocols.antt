-- ===== src/Examples/Protocols.antt =====
-- A device behind the UEFI protocols, for the theorems on
-- crates/nextboot-virtio/src/protocol/handlers.rs.
use next_boot.Base.{true, false, some}
use next_boot.Device.{VirtualDeviceType, new_config}
use next_boot.Mapping.Bytes
use next_boot.BlockIo.{with_byte_mapping}
use next_boot.Protocol.{VirtualBlockIoProtocol, Token}
use next_boot.Examples.Reads.{device}

-- Two blocks of 512 bytes.
abbrev protocol : VirtualBlockIoProtocol
protocol = record {
  media = record {
    media_id = 7;
    removable_media = true;
    media_present = true;
    logical_partition = false;
    read_only = true;
    write_caching = false;
    block_size = 512;
    io_align = 8;
    last_block = 1;
    lowest_aligned_lba = 0;
    logical_blocks_per_physical_block = 1;
    optimal_transfer_length_granularity = 1;
  };
  vbio =
      with_byte_mapping (new_config VirtualDeviceType.hard_disk 0 1024 512)
        (Bytes.contiguous 0 1024);
}

-- The device of `Examples.Reads`, of ten bytes, behind the protocols.
abbrev disk_protocol : VirtualBlockIoProtocol
disk_protocol = record protocol { vbio = device }

-- A token with event 5, which can be signalled.
abbrev waiting : Token
waiting = record { event = some 5; transaction_status = 99 }
