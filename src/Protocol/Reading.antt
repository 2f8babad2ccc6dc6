-- ===== src/Protocol/Reading.antt =====
-- A Disk IO read by crates/nextboot-virtio/src/protocol/handlers.rs: what the firmware gets of the medium.
use next_boot.Base.{ℕ, ◌+◌, ◌<◌, ◌≤◌, ◌≡◌, ◌≢◌, ◌⊎◌, Option, none, some, List, length, get_elem?}
use next_boot.Device.{Outcome, ok}
use next_boot.BlockIo.Read.{medium_byte}
use next_boot.Protocol.{VirtualBlockIoProtocol}

abbrev pub Answer : Type 0
Answer = Outcome (ℕ × Option (List ℕ))

-- The answer to a read of `n` bytes at `offset`: MediaChanged if another medium is meant, InvalidParameter if
-- the range ends beyond the medium, and else success with the bytes of the medium in the buffer.
abbrev pub Delivers : VirtualBlockIoProtocol → (ℕ → ℕ) → ℕ → ℕ → ℕ → Answer → Type 0
Delivers w disk media_id offset n r =
    ((media_id ≢ w.vbio.media_id) × (r ≡ ok (0x8000000000000016, none)))
    ⊎ (((media_id ≡ w.vbio.media_id)
          × (w.vbio.config.iso_size < offset + n)
          × (r ≡ ok (0x8000000000000002, none)))
        ⊎ ((media_id ≡ w.vbio.media_id)
            × (offset + n ≤ w.vbio.config.iso_size)
            × ((out : List ℕ) × (r ≡ ok (0, some out))
                × (length out ≡ n)
                × ((i : ℕ)
                    → i < n
                    → get_elem? out i ≡ some (medium_byte w.vbio disk (offset + i))))))
