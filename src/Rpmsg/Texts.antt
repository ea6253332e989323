-- ===== src/Rpmsg/Texts.antt =====
-- The printed forms in the messages of crates/daphne-sc-server/src/rpmsg.rs: `RpuWireError` and the names of
-- the operations of crates/daphne-sc-core/src/rpu_wire.rs.
use daphne_sc.Prelude.{ℕ, ◌++◌, Option, none, some, ◌==◌, if◌then◌else◌, []}
use daphne_sc.Wire.Ops.{RpuWireOp}
use daphne_sc.Wire.Error.{RpuWireError}
use daphne_sc.Wire.Reply.{RpuWireReply}
use daphne_sc.Text.{Text, ascii, decimal, hex_u32, upper_hex_u32}

-- `RpuWireError`'s `Display`
unfoldable pub wire_error_text : RpuWireError → Text
wire_error_text (RpuWireError.bad_length expected actual) =
    ascii "bad RPU wire length: expected " ++ decimal expected ++ ascii ", got " ++ decimal actual
wire_error_text (RpuWireError.bad_magic magic) =
    ascii "bad RPU wire magic: 0x" ++ upper_hex_u32 magic
wire_error_text (RpuWireError.bad_abi abi) = ascii "unsupported RPU ABI version: " ++ decimal abi
wire_error_text (RpuWireError.unknown_op op) = ascii "unknown RPU wire operation: " ++ decimal op
wire_error_text (RpuWireError.unknown_target target) =
    ascii "unknown RPU wire target: " ++ decimal target
wire_error_text (RpuWireError.unknown_status status) =
    ascii "unknown RPU wire status: " ++ decimal status
wire_error_text (RpuWireError.unsupported_command message) = ascii message
wire_error_text (RpuWireError.bad_payload message) = ascii "bad RPU wire payload: " ++ ascii message
wire_error_text (RpuWireError.payload_too_long field max actual) =
    ascii field ++ ascii " is too long: " ++ decimal actual ++ ascii "; max " ++ decimal max
wire_error_text (RpuWireError.value_out_of_range field max actual) =
    ascii field ++ ascii " is out of range: " ++ decimal actual ++ ascii "; max " ++ decimal max

-- `{op:?}`
unfoldable pub op_name : RpuWireOp → Text
op_name RpuWireOp.status = ascii "Status"
op_name RpuWireOp.read_register = ascii "ReadRegister"
op_name RpuWireOp.write_register = ascii "WriteRegister"
op_name RpuWireOp.read_attenuation = ascii "ReadAttenuation"
op_name RpuWireOp.set_attenuation = ascii "SetAttenuation"
op_name RpuWireOp.read_bias = ascii "ReadBias"
op_name RpuWireOp.set_bias = ascii "SetBias"
op_name RpuWireOp.read_trim = ascii "ReadTrim"
op_name RpuWireOp.set_trim = ascii "SetTrim"
op_name RpuWireOp.read_offset = ascii "ReadOffset"
op_name RpuWireOp.set_offset = ascii "SetOffset"
op_name RpuWireOp.read_vbias_control = ascii "ReadVbiasControl"
op_name RpuWireOp.set_vbias_control = ascii "SetVbiasControl"
op_name RpuWireOp.set_reset = ascii "SetReset"
op_name RpuWireOp.do_reset = ascii "DoReset"
op_name RpuWireOp.set_power_state = ascii "SetPowerState"
op_name RpuWireOp.align = ascii "Align"
op_name RpuWireOp.begin_configure_frontend = ascii "BeginConfigureFrontend"
op_name RpuWireOp.configure_afe = ascii "ConfigureAfe"
op_name RpuWireOp.configure_channel = ascii "ConfigureChannel"
op_name RpuWireOp.apply_configure_frontend = ascii "ApplyConfigureFrontend"
op_name RpuWireOp.write_function = ascii "WriteFunction"
op_name RpuWireOp.read_alignment = ascii "ReadAlignment"

-- `format_reply_detail`
unfoldable pub readback_detail : Option ℕ → Text
readback_detail none = []
readback_detail (some readback) = ascii " readback=0x" ++ hex_u32 readback

unfoldable pub format_reply_detail : Text → RpuWireReply → Text
format_reply_detail prefix reply =
    let context =
      if reply.interlock_code == 0
      then []
      else ascii " context=0x" ++ hex_u32 reply.interlock_code in
    prefix
    ++ ascii ": code "
    ++ decimal reply.fault_code
    ++ readback_detail reply.readback
    ++ context
