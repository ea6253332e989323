-- ===== src/Wire/Command.antt =====
-- The command frame of crates/daphne-sc-core/src/rpu_wire.rs: its record, `encode` and `decode`.
use daphne_sc.Prelude.{ℕ, ◌^◌, ◌<◌, ◌≡◌, List, length, replicate, set, take, drop, copy_at, All}
use daphne_sc.Prelude.{not, ◌==◌, if◌then◌else◌, Result, ok, err, ◌>>=◌}
use daphne_sc.Bytes.{IsByte, put_u16, put_u32, put_u64, index, get_u16, get_u32, get_u64}
use daphne_sc.Wire.Ops.{RpuWireOp, RpuWireTarget, op_code, target_code}
use daphne_sc.Wire.Error.{RpuWireError, try_from_op, try_from_target}

abbrev pub rpu_wire_magic : ℕ
rpu_wire_magic = 0x52505344

abbrev pub rpu_wire_abi_version : ℕ
rpu_wire_abi_version = 2

abbrev pub rpu_wire_command_len : ℕ
rpu_wire_command_len = 64

abbrev pub rpu_wire_payload_len : ℕ
rpu_wire_payload_len = 32

abbrev pub rpu_wire_function_name_max : ℕ
rpu_wire_function_name_max = 31

pub record RpuWireCommand : Type 0 where
  pub sequence : ℕ  -- u64
  pub op : RpuWireOp
  pub target : RpuWireTarget
  pub afe_board : ℕ  -- u8
  pub afe_pl : ℕ  -- u8
  pub channel : ℕ  -- u8
  pub afe_channel : ℕ  -- u8
  pub register : ℕ  -- u16
  pub value : ℕ  -- u32
  pub flags : ℕ  -- u32
  pub payload : List ℕ  -- [u8; 32]

-- The ranges of the field types.
pub record IsCommand (c : RpuWireCommand) : Type 0 where
  pub sequence_lt : c.sequence < 2 ^ 64
  pub afe_board_lt : c.afe_board < 256
  pub afe_pl_lt : c.afe_pl < 256
  pub channel_lt : c.channel < 256
  pub afe_channel_lt : c.afe_channel < 256
  pub register_lt : c.register < 2 ^ 16
  pub value_lt : c.value < 2 ^ 32
  pub flags_lt : c.flags < 2 ^ 32
  pub length-payload : length c.payload ≡ rpu_wire_payload_len
  pub payload_bytes : All IsByte c.payload

-- `RpuWireCommand::status`
unfoldable pub status : ℕ → RpuWireCommand
status sequence = record {
  sequence = sequence;
  op = RpuWireOp.status;
  target = RpuWireTarget.none;
  afe_board = 0;
  afe_pl = 0;
  channel = 0;
  afe_channel = 0;
  register = 0;
  value = 0;
  flags = 0;
  payload = replicate rpu_wire_payload_len 0;
}

unfoldable pub encode : RpuWireCommand → List ℕ
unfolding put_u16 put_u32 put_u64
encode c =
    let out = replicate rpu_wire_command_len 0 in
    let out = put_u32 out 0 rpu_wire_magic in
    let out = put_u16 out 4 rpu_wire_abi_version in
    let out = put_u16 out 6 (op_code c.op) in
    let out = put_u64 out 8 c.sequence in
    let out = set out 16 (target_code c.target) in
    let out = set out 17 c.afe_board in
    let out = set out 18 c.afe_pl in
    let out = set out 19 c.channel in
    let out = set out 20 c.afe_channel in
    let out = put_u16 out 22 c.register in
    let out = put_u32 out 24 c.value in let out = put_u32 out 28 c.flags in copy_at out 32 c.payload

unfoldable pub decode : List ℕ → Result RpuWireError RpuWireCommand
decode input =
    let magic = get_u32 input 0 in
    let abi = get_u16 input 4 in
    if not (length input == rpu_wire_command_len)
    then err (RpuWireError.bad_length rpu_wire_command_len (length input))
    else (if not (magic == rpu_wire_magic)
        then err (RpuWireError.bad_magic magic)
        else (if not (abi == rpu_wire_abi_version) then err (RpuWireError.bad_abi abi) else do
          op ← try_from_op (get_u16 input 6)
          target ← try_from_target (index input 16)
          ok (record {
            sequence = get_u64 input 8;
            op = op;
            target = target;
            afe_board = index input 17;
            afe_pl = index input 18;
            channel = index input 19;
            afe_channel = index input 20;
            register = get_u16 input 22;
            value = get_u32 input 24;
            flags = get_u32 input 28;
            payload = take 32 (drop 32 input);
          })))
