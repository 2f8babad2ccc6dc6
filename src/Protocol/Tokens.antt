-- ===== src/Protocol/Tokens.antt =====
-- The Block IO 2 and Disk IO 2 handlers of crates/nextboot-virtio/src/protocol/handlers.rs, which finish a
-- token. Whether an event could be signalled is an answer of UEFI, the first argument.
use next_boot.Base.{
  ℕ, ◌≡◌, ◌≢◌, ◌⊎◌, inl, inr, refl, Bool, true, false, not, ◌&&◌, if◌then◌else◌, Bool-cases, ap,
  sym, ◌∙◌, arith, Option, none, some, List,
}
use next_boot.Device.{Outcome, ok, ◌>>=◌}
use next_boot.Protocol.{UefiStatus, code, Token, VirtualBlockIoProtocol}
use next_boot.Protocol.Handlers.{
  read_blocks_status, write_blocks_status, read_disk_status, write_disk_status,
}

-- `matches!(status, UefiStatus::Success)`
abbrev pub is_success : UefiStatus → Bool
is_success UefiStatus.success = true
is_success _ = false

-- No event, or one that could be signalled.
abbrev pub signalled : (ℕ → Bool) → Option ℕ → Bool
signalled signal none = true
signalled signal (some event) = signal event

-- The token afterwards, and the status code.
unfoldable pub finish_block_io_2 : (ℕ → Bool) → Option Token → UefiStatus → Option Token × ℕ
finish_block_io_2 signal none status = (none, code status)
finish_block_io_2 signal (some token) status =
    if is_success status && not (signalled signal token.event)
    then (
      some (record token { transaction_status = code UefiStatus.device_error }),
      code UefiStatus.device_error,
    )
    else (some (record token { transaction_status = code status }), code status)

unfoldable pub finish_disk_io_2 : (ℕ → Bool) → Option Token → UefiStatus → Option Token × ℕ
finish_disk_io_2 signal none status = (none, code status)
finish_disk_io_2 signal (some token) status =
    if is_success status && not (signalled signal token.event)
    then (
      some (record token { transaction_status = code UefiStatus.device_error }),
      code UefiStatus.device_error,
    )
    else (some (record token { transaction_status = code status }), code status)

-- The token, the code, and the buffer of a read that succeeds.
abbrev pub Finished : Type 0
Finished = Outcome ((Option Token × ℕ) × Option (List ℕ))

unfoldable pub read_blocks_ex_handler :
    (ℕ → Bool)
    → Option VirtualBlockIoProtocol
    → ℕ
    → ℕ
    → Option Token
    → ℕ
    → Option (List ℕ)
    → Finished
read_blocks_ex_handler signal none media_id lba token buffer_size buffer =
    ok ((token, code UefiStatus.invalid_parameter), none)
read_blocks_ex_handler signal (some w) media_id lba token buffer_size buffer = do
  (status, filled) ← read_blocks_status w media_id lba buffer_size buffer
  ok (finish_block_io_2 signal token status, filled)

unfoldable pub write_blocks_ex_handler :
    (ℕ → Bool)
    → Option VirtualBlockIoProtocol
    → ℕ
    → ℕ
    → Option Token
    → ℕ
    → Option (List ℕ)
    → Outcome (Option Token × ℕ)
write_blocks_ex_handler signal none media_id lba token buffer_size buffer =
    ok (token, code UefiStatus.invalid_parameter)
write_blocks_ex_handler signal (some w) media_id lba token buffer_size buffer = do
  status ← write_blocks_status w media_id lba buffer_size buffer
  ok (finish_block_io_2 signal token status)

unfoldable pub read_disk_ex_handler :
    (ℕ → Bool)
    → Option VirtualBlockIoProtocol
    → ℕ
    → ℕ
    → Option Token
    → ℕ
    → Option (List ℕ)
    → Finished
read_disk_ex_handler signal none media_id offset token buffer_size buffer =
    ok ((token, code UefiStatus.invalid_parameter), none)
read_disk_ex_handler signal (some w) media_id offset token buffer_size buffer = do
  (status, filled) ← read_disk_status w media_id offset buffer_size buffer
  ok (finish_disk_io_2 signal token status, filled)

unfoldable pub write_disk_ex_handler :
    (ℕ → Bool)
    → Option VirtualBlockIoProtocol
    → ℕ
    → ℕ
    → Option Token
    → ℕ
    → Option (List ℕ)
    → Outcome (Option Token × ℕ)
write_disk_ex_handler signal none media_id offset token buffer_size buffer =
    ok (token, code UefiStatus.invalid_parameter)
write_disk_ex_handler signal (some w) media_id offset token buffer_size buffer = do
  status ← write_disk_status w media_id offset buffer_size buffer
  ok (finish_disk_io_2 signal token status)

-- Each code but that of success is not zero.
code_lem : (s : UefiStatus) → (code s ≢ 0) ⊎ (s ≡ UefiStatus.success)
unfolding code
code_lem UefiStatus.success = inr refl
code_lem s = inl (λ h. omega (arith, h))

not-false : (b : Bool) → not b ≡ false → b ≡ true
not-false true h = refl
not-false false h = absurd cc

-- Both ways to finish a token give the same result: the token keeps its event and takes the code that the
-- handler returns, and the code is that of success only if the call succeeded and the event of the token,
-- if it has one, was signalled.
pub finish_block_io_2-finish_disk_io_2 :
    (signal : ℕ → Bool) (token : Token) (status : UefiStatus)
    → (finished : Token) × (c : ℕ) × (finish_block_io_2 signal (some token) status
        ≡ (some finished, c))
      × (finish_disk_io_2 signal (some token) status ≡ (some finished, c))
      × (finished.transaction_status ≡ c)
      × (finished.event ≡ token.event)
      × ((c ≢ 0) ⊎ ((status ≡ UefiStatus.success) × (signalled signal token.event ≡ true)))
unfolding finish_block_io_2 finish_disk_io_2 code
finish_block_io_2-finish_disk_io_2 signal token status =
    elim (Bool-cases (is_success status && not (signalled signal token.event))) [
      | inl late ↦ (
        record token { transaction_status = code UefiStatus.device_error },
        code UefiStatus.device_error,
        rw late,
        rw late,
        refl,
        refl,
        inl (λ h. omega (arith, h)),
      )
      | inr fine ↦ (
        record token { transaction_status = code status },
        code status,
        rw fine,
        rw fine,
        refl,
        refl,
        elim (code_lem status) [
          | inl failed ↦ inl failed
          | inr same ↦ inr (
            same,
            not-false (signalled signal token.event)
                (ap (λ s. is_success s && not (signalled signal token.event)) (sym same) ∙ fine),
          )
        ],
      )
    ]
