-- ===== src/Wire/Reply.antt =====
-- The reply frame of crates/daphne-sc-core/src/rpu_wire.rs: its record, `encode` and `decode`.
pub mod RoundTrip
use daphne_sc.Prelude.{ℕ, ◌^◌, ◌<◌, List, length, replicate, Bool, true, false, Option, none, some}
use daphne_sc.Prelude.{not, ◌==◌, of_bool, if◌then◌else◌, Result, ok, err, ◌>>=◌}
use daphne_sc.Bytes.{put_u16, put_u32, put_u64, get_u16, get_u32, get_u64}
use daphne_sc.Wire.Ops.{RpuWireStatus, status_code}
use daphne_sc.Wire.Error.{RpuWireError, try_from_status}
use daphne_sc.Wire.Command.{rpu_wire_magic, rpu_wire_abi_version}

abbrev pub rpu_wire_reply_len : ℕ
rpu_wire_reply_len = 64

pub record RpuWireReply : Type 0 where
  pub sequence : ℕ  -- u64
  pub status : RpuWireStatus
  pub readback : Option ℕ  -- u32
  pub heartbeat : ℕ  -- u64
  pub fault_code : ℕ  -- u32
  pub interlock_code : ℕ  -- u32

-- `unwrap_or_default` and `is_some` of an optional number.
abbrev pub unwrap_or_zero : Option ℕ → ℕ
unwrap_or_zero none = 0
unwrap_or_zero (some v) = v

abbrev pub is_some : Option ℕ → Bool
is_some none = false
is_some (some v) = true

-- The ranges of the field types.
pub record IsReply (r : RpuWireReply) : Type 0 where
  pub sequence_lt : r.sequence < 2 ^ 64
  pub readback_lt : unwrap_or_zero r.readback < 2 ^ 32
  pub heartbeat_lt : r.heartbeat < 2 ^ 64
  pub fault_code_lt : r.fault_code < 2 ^ 32
  pub interlock_code_lt : r.interlock_code < 2 ^ 32

unfoldable pub encode : RpuWireReply → List ℕ
unfolding put_u16 put_u32 put_u64
encode r =
    let out = replicate rpu_wire_reply_len 0 in
    let out = put_u32 out 0 rpu_wire_magic in
    let out = put_u16 out 4 rpu_wire_abi_version in
    let out = put_u16 out 6 (status_code r.status) in
    let out = put_u64 out 8 r.sequence in
    let out = put_u32 out 16 (unwrap_or_zero r.readback) in
    let out = put_u32 out 20 (of_bool (is_some r.readback)) in
    let out = put_u64 out 24 r.heartbeat in
    let out = put_u32 out 32 r.fault_code in put_u32 out 36 r.interlock_code

unfoldable pub decode : List ℕ → Result RpuWireError RpuWireReply
decode input =
    let magic = get_u32 input 0 in
    let abi = get_u16 input 4 in
    let readback = if get_u32 input 20 == 0 then none else some (get_u32 input 16) in
    if not (length input == rpu_wire_reply_len)
    then err (RpuWireError.bad_length rpu_wire_reply_len (length input))
    else (if not (magic == rpu_wire_magic)
        then err (RpuWireError.bad_magic magic)
        else (if not (abi == rpu_wire_abi_version) then err (RpuWireError.bad_abi abi) else do
          status ← try_from_status (get_u16 input 6)
          ok (record {
            sequence = get_u64 input 8;
            status = status;
            readback = readback;
            heartbeat = get_u64 input 24;
            fault_code = get_u32 input 32;
            interlock_code = get_u32 input 36;
          })))
