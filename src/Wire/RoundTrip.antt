-- ===== src/Wire/RoundTrip.antt =====
-- A command frame read back from its 64 bytes.
use daphne_sc.Prelude.{◌≡◌, refl, ap, ◌∙◌, arith, length, take, drop, replicate, ok}
use daphne_sc.Prelude.{take-length, copy_at-zero, length-copy_at}
use daphne_sc.Bytes.{index, get_u16, get_u32, get_u64}
use daphne_sc.Bytes.Laws.{from_le_bytes-to_le_bytes}
use daphne_sc.Wire.Ops.{op_code}
use daphne_sc.Wire.Error.{try_from_op, try_from_target}
use daphne_sc.Wire.Codes.{op_code-lt, try_from_op-op_code, try_from_target-target_code}
use daphne_sc.Wire.Command.{RpuWireCommand, IsCommand, encode, decode}
use daphne_sc.Wire.Command.{rpu_wire_magic, rpu_wire_abi_version, rpu_wire_command_len}

-- A frame has 64 bytes, whatever the payload.
pub length-encode : (c : RpuWireCommand) → length (encode c) ≡ rpu_wire_command_len
unfolding encode
length-encode c = omega (arith, length-copy_at (replicate 32 0) 0 c.payload)

module _ (c : RpuWireCommand) where
  magic_at : get_u32 (encode c) 0 ≡ rpu_wire_magic
  unfolding encode get_u32
  magic_at = from_le_bytes-to_le_bytes 4 rpu_wire_magic (omega arith)

  abi_at : get_u16 (encode c) 4 ≡ rpu_wire_abi_version
  unfolding encode get_u16
  abi_at = from_le_bytes-to_le_bytes 2 rpu_wire_abi_version (omega arith)

  op_at : try_from_op (get_u16 (encode c) 6) ≡ ok c.op
  unfolding encode get_u16
  op_at =
      ap try_from_op (from_le_bytes-to_le_bytes 2 (op_code c.op) (omega (arith, op_code-lt c.op)))
      ∙ try_from_op-op_code c.op

  target_at : try_from_target (index (encode c) 16) ≡ ok c.target
  unfolding encode
  target_at = try_from_target-target_code c.target

module _ (c : RpuWireCommand) (w : IsCommand c) where
  sequence_at : get_u64 (encode c) 8 ≡ c.sequence
  unfolding encode get_u64
  sequence_at = from_le_bytes-to_le_bytes 8 c.sequence w.sequence_lt

  register_at : get_u16 (encode c) 22 ≡ c.register
  unfolding encode get_u16
  register_at = from_le_bytes-to_le_bytes 2 c.register w.register_lt

  value_at : get_u32 (encode c) 24 ≡ c.value
  unfolding encode get_u32
  value_at = from_le_bytes-to_le_bytes 4 c.value w.value_lt

  flags_at : get_u32 (encode c) 28 ≡ c.flags
  unfolding encode get_u32
  flags_at = from_le_bytes-to_le_bytes 4 c.flags w.flags_lt

  payload_at : take 32 (drop 32 (encode c)) ≡ c.payload
  unfolding encode
  payload_at =
      rw (copy_at-zero (replicate 32 0) c.payload w.length-payload)
        (take-length c.payload 32 w.length-payload)

  board_at : index (encode c) 17 ≡ c.afe_board
  unfolding encode
  board_at = refl

  pl_at : index (encode c) 18 ≡ c.afe_pl
  unfolding encode
  pl_at = refl

  channel_at : index (encode c) 19 ≡ c.channel
  unfolding encode
  channel_at = refl

  afe_channel_at : index (encode c) 20 ≡ c.afe_channel
  unfolding encode
  afe_channel_at = refl

  -- Every command whose fields fit their types is read back from its frame.
  pub decode-encode : decode (encode c) ≡ ok c
  unfolding decode
  decode-encode =
      rw (length-encode c, magic_at c, abi_at c, op_at c, target_at c)
        (simp (
          sequence_at, board_at, pl_at, channel_at, afe_channel_at, register_at, value_at, flags_at,
          payload_at,
        ))
