-- ===== src/Rpu.antt =====
-- crates/daphne-sc-core/src/rpu.rs: the interface to the RPU and the transport that refuses everything.
use daphne_sc.Prelude.{ℕ, ◌++◌, Bool, false, Option, none, some, Result, ok, err}
use daphne_sc.Afe.{AfeCommand}
use daphne_sc.Text.{Text, ascii}

pub record AfeCommandReply : Type 0 where
  pub accepted : Bool
  pub applied : Bool
  pub readback : Option ℕ
  pub fault_code : ℕ
  pub context_code : ℕ
  pub message : Text

pub record RpuLinkStatus : Type 0 where
  pub available : Bool
  pub running : Bool
  pub firmware : Option Text
  pub heartbeat : Option ℕ
  pub last_fault : Option Text

pub data RpuError : Type 0 where
  unavailable : RpuError
  transport : Text → RpuError
  rejected : Text → RpuError
  timeout : RpuError

-- `RpuError`'s `Display`
unfoldable pub rpu_error_text : RpuError → Text
rpu_error_text RpuError.unavailable = ascii "RPU AFE backend is unavailable"
rpu_error_text (RpuError.transport msg) = ascii "RPU transport error: " ++ msg
rpu_error_text (RpuError.rejected msg) = ascii "RPU rejected command: " ++ msg
rpu_error_text RpuError.timeout = ascii "RPU command timed out"

-- `trait RpuAfeTransport`, as operations on the state `T` of a transport.
pub record RpuAfeTransport (T : Type 0) : Type 0 where
  pub status : T → T × Result RpuError RpuLinkStatus
  pub submit_afe_command : T → AfeCommand → T × Result RpuError AfeCommandReply

-- `FailClosedRpuTransport`
abbrev pub fail_closed : RpuAfeTransport (Unit {0})
fail_closed = record {
  status = λ t. (
    t,
    ok (record {
      available = false;
      running = false;
      firmware = none;
      heartbeat = none;
      last_fault = some (ascii "RPU AFE transport is not configured");
    }),
  );
  submit_afe_command = λ t command. (t, err RpuError.unavailable);
}
