-- ===== src/Wire/Reply/RoundTrip.antt =====
-- A reply frame read back from its 64 bytes.
use daphne_sc.Prelude.{ℕ, ◌^◌, ◌<◌, ◌≡◌, refl, ap, ◌∙◌, arith, length, Option, none, some, ok}
use daphne_sc.Prelude.{◌==◌, of_bool, if◌then◌else◌}
use daphne_sc.Bytes.{get_u16, get_u32, get_u64}
use daphne_sc.Bytes.Laws.{from_le_bytes-to_le_bytes}
use daphne_sc.Wire.Ops.{status_code}
use daphne_sc.Wire.Error.{try_from_status}
use daphne_sc.Wire.Codes.{status_code-lt, try_from_status-status_code}
use daphne_sc.Wire.Command.{rpu_wire_magic, rpu_wire_abi_version}
use daphne_sc.Wire.Reply.{RpuWireReply, IsReply, encode, decode, unwrap_or_zero, is_some}
use daphne_sc.Wire.Reply.{rpu_wire_reply_len}

-- The readback word counts only where the flag word is not 0.
readback_flag :
    (o : Option ℕ) → (if of_bool (is_some o) == 0 then none else some (unwrap_or_zero o)) ≡ o
readback_flag none = refl
readback_flag (some v) = refl

flag-lt : (o : Option ℕ) → of_bool (is_some o) < 2 ^ 32
flag-lt none = omega arith
flag-lt (some v) = omega arith

module _ (r : RpuWireReply) where
  pub length-encode : length (encode r) ≡ rpu_wire_reply_len
  unfolding encode
  length-encode = refl

  magic_at : get_u32 (encode r) 0 ≡ rpu_wire_magic
  unfolding encode get_u32
  magic_at = from_le_bytes-to_le_bytes 4 rpu_wire_magic (omega arith)

  abi_at : get_u16 (encode r) 4 ≡ rpu_wire_abi_version
  unfolding encode get_u16
  abi_at = from_le_bytes-to_le_bytes 2 rpu_wire_abi_version (omega arith)

  status_at : try_from_status (get_u16 (encode r) 6) ≡ ok r.status
  unfolding encode get_u16
  status_at =
      ap try_from_status (
        from_le_bytes-to_le_bytes 2 (status_code r.status) (omega (arith, status_code-lt r.status)))
      ∙ try_from_status-status_code r.status

  flag_at : get_u32 (encode r) 20 ≡ of_bool (is_some r.readback)
  unfolding encode get_u32
  flag_at = from_le_bytes-to_le_bytes 4 (of_bool (is_some r.readback)) (flag-lt r.readback)

-- The sequence number is read back whatever the other fields hold.
pub get_u64-encode : (r : RpuWireReply) → r.sequence < 2 ^ 64 → get_u64 (encode r) 8 ≡ r.sequence
unfolding encode get_u64
get_u64-encode r h = from_le_bytes-to_le_bytes 8 r.sequence h

module _ (r : RpuWireReply) (w : IsReply r) where
  sequence_at : get_u64 (encode r) 8 ≡ r.sequence
  sequence_at = get_u64-encode r w.sequence_lt

  readback_at : get_u32 (encode r) 16 ≡ unwrap_or_zero r.readback
  unfolding encode get_u32
  readback_at = from_le_bytes-to_le_bytes 4 (unwrap_or_zero r.readback) w.readback_lt

  heartbeat_at : get_u64 (encode r) 24 ≡ r.heartbeat
  unfolding encode get_u64
  heartbeat_at = from_le_bytes-to_le_bytes 8 r.heartbeat w.heartbeat_lt

  fault_code_at : get_u32 (encode r) 32 ≡ r.fault_code
  unfolding encode get_u32
  fault_code_at = from_le_bytes-to_le_bytes 4 r.fault_code w.fault_code_lt

  interlock_code_at : get_u32 (encode r) 36 ≡ r.interlock_code
  unfolding encode get_u32
  interlock_code_at = from_le_bytes-to_le_bytes 4 r.interlock_code w.interlock_code_lt

  -- Every reply whose fields fit their types is read back from its frame, a missing readback as
  -- missing.
  pub reply_decode-encode : decode (encode r) ≡ ok r
  unfolding decode
  reply_decode-encode =
      rw (length-encode r, magic_at r, abi_at r, status_at r, flag_at r, readback_at)
        (simp (sequence_at, readback_flag, heartbeat_at, fault_code_at, interlock_code_at))
