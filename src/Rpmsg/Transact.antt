-- ===== src/Rpmsg/Transact.antt =====
-- The exchange of frames with the RPU in crates/daphne-sc-server/src/rpmsg.rs: `transact`, `status` and
-- `submit_afe_command` over a device file, which is a parameter.
use daphne_sc.Rpmsg.{next_sequence, reserve_sequences}
use daphne_sc.Rpmsg.Device.{
  RpmsgFile, PollOutcome, RpmsgAfeTransport, M, lift, on_file, ◌>>=◌, ◌>>◌,
}
use daphne_sc.Rpmsg.Texts.{wire_error_text, op_name, format_reply_detail}
use daphne_sc.Prelude.{
  ℕ, suc, ◌-◌, ◌^◌, bit_and, List, [], ◌∷◌, ◌++◌, Bool, true, false, not, ◌==◌, leb,
}
use daphne_sc.Prelude.{Option, none, some, Result, ok, err, map_err, if◌then◌else◌}
use daphne_sc.Afe.{AfeCommand, validate}
use daphne_sc.Wire.Ops.{RpuWireStatus}
use daphne_sc.Wire.Command.{RpuWireCommand}
use daphne_sc.Wire.Command
use daphne_sc.Wire.Reply.{RpuWireReply, rpu_wire_reply_len}
use daphne_sc.Wire.Reply
use daphne_sc.Wire.FromAfe.{frame_count_for_afe_command, from_afe_command_sequence}
use daphne_sc.Text.{Text, ascii, decimal, upper_hex_u16, validation_error_text}
use daphne_sc.Rpu.{RpuError, AfeCommandReply, RpuLinkStatus, RpuAfeTransport, rpu_error_text}

-- `libc::POLLIN`
abbrev pollin : ℕ
pollin = 1

-- The end of `wait_readable`.
unfoldable pub readable : PollOutcome → Result RpuError (Unit {0})
readable (PollOutcome.failed e) = err (RpuError.transport (ascii "polling RPU transport: " ++ e))
readable PollOutcome.timed_out = err RpuError.timeout
readable (PollOutcome.ready revents) =
    if bit_and revents pollin == 0
    then err (
        RpuError.transport
          (ascii "RPU transport not readable after poll: revents=0x" ++ upper_hex_u16 revents))
    else ok tt

unfoldable pub check_sequence : ℕ → ℕ → Result RpuError (Unit {0})
check_sequence sent got =
    if not (got == sent)
    then err (
        RpuError.transport (
          ascii "RPU reply sequence mismatch: sent "
          ++ decimal sent
          ++ ascii ", got "
          ++ decimal got))
    else ok tt

module _ {F : Type 0} where
  -- `last_heartbeat` and `last_fault` after a reply.
  abbrev pub note_reply : RpuWireReply → RpmsgAfeTransport F → RpmsgAfeTransport F
  note_reply reply t = record t {
    last_heartbeat = some reply.heartbeat;
    last_fault =
        if not (reply.fault_code == 0)
        then some (ascii "RPU fault code " ++ decimal reply.fault_code)
        else t.last_fault;
  }

-- The message of a frame that fails.
unfoldable pub frame_error : ℕ → ℕ → RpuWireCommand → RpuError → RpuError
frame_error number frame_count frame e = RpuError.transport (
    ascii "frame "
    ++ decimal number
    ++ ascii "/"
    ++ decimal frame_count
    ++ ascii " op "
    ++ op_name frame.op
    ++ ascii " seq "
    ++ decimal frame.sequence
    ++ ascii ": "
    ++ rpu_error_text e)

-- `(accepted, applied, message)`
unfoldable pub reply_verdict : RpuWireReply → RpuWireStatus → Bool × Bool × Text
reply_verdict reply RpuWireStatus.accepted = (true, false, ascii "RPU accepted command")
reply_verdict reply RpuWireStatus.applied = (true, true, ascii "RPU applied command")
reply_verdict reply RpuWireStatus.rejected = (false, false, ascii "RPU rejected command")
reply_verdict reply RpuWireStatus.interlocked =
    (false, false, ascii "RPU interlock active: code " ++ decimal reply.interlock_code)
reply_verdict reply RpuWireStatus.fault =
    (false, false, format_reply_detail (ascii "RPU fault active") reply)
reply_verdict reply RpuWireStatus.timeout = (true, false, ascii "RPU command timed out")

unfoldable pub afe_command_reply : RpuWireReply → AfeCommandReply
afe_command_reply reply =
    let (accepted, applied, message) = reply_verdict reply reply.status in
    record {
      accepted = accepted;
      applied = applied;
      readback = reply.readback;
      fault_code = reply.fault_code;
      context_code = reply.interlock_code;
      message = message;
    }

unfoldable pub is_running : RpuWireStatus → Bool
is_running RpuWireStatus.fault = false
is_running RpuWireStatus.timeout = false
is_running _ = true

-- The reply of a command, from the last reply of its frames.
unfoldable pub final_answer : Option RpuWireReply → Result RpuError AfeCommandReply
final_answer none = err (RpuError.transport (ascii "RPU command produced no frames"))
final_answer (some reply) = ok (afe_command_reply reply)

module _ {F : Type 0} (file : RpmsgFile F) where
  unfoldable pub wait_readable : M F (Unit {0})
  wait_readable t =
      let timeout_ms = if leb t.timeout (2 ^ 31 - 1) then t.timeout else 2 ^ 31 - 1 in
      let (f, outcome) = file.poll t.file timeout_ms in (record t { file = f }, readable outcome)

  -- From the decoding of the reply on.
  unfoldable pub take_reply : ℕ → List ℕ → M F RpuWireReply
  take_reply sequence bytes = do
    reply ← lift (
        map_err (λ e. RpuError.transport (ascii "decoding RPU reply: " ++ wire_error_text e))
          (Reply.decode bytes))
    lift (check_sequence sequence reply.sequence)
    (λ t. (note_reply reply t, ok reply))

  -- The pauses between frames are left out.
  unfoldable pub transact : RpuWireCommand → M F RpuWireReply
  transact command = do
    on_file (ascii "writing RPU command: ") (λ f. file.write_all f (Command.encode command))
    on_file (ascii "flushing RPU command: ") file.flush
    wait_readable
    bytes ← on_file (ascii "reading RPU reply: ") (λ f. file.read_exact f rpu_wire_reply_len)
    take_reply command.sequence bytes

  -- The loop of `submit_afe_command`, from the frame of this number on; `final_reply` before and after.
  unfoldable pub transact_all :
      ℕ → ℕ → List RpuWireCommand → Option RpuWireReply → M F (Option RpuWireReply)
  transact_all number frame_count [] final_reply = lift (ok final_reply)
  transact_all number frame_count (frame ∷ frames) final_reply = do
    reply ← (λ t.
        let (t', r) = transact frame t in (t', map_err (frame_error number frame_count frame) r))
    transact_all (suc number) frame_count frames (some reply)

  -- `reserve_sequences` on the transport
  unfoldable pub reserve : ℕ → M F ℕ
  reserve count t =
      let (next, first) = reserve_sequences t.next_sequence count in
      (record t { next_sequence = next }, ok first)

  -- `submit_afe_command` from the loop on.
  unfoldable pub submit_frames : ℕ → List RpuWireCommand → M F AfeCommandReply
  submit_frames frame_count frames =
      transact_all 1 frame_count frames none >>= λ final_reply. lift (final_answer final_reply)

  -- From the numbers on.
  unfoldable pub submit_numbered : AfeCommand → ℕ → ℕ → M F AfeCommandReply
  submit_numbered command frame_count first_sequence =
      lift (
        map_err (λ e. RpuError.rejected (wire_error_text e))
          (from_afe_command_sequence first_sequence command))
      >>= submit_frames frame_count

  -- From the count on.
  unfoldable pub submit_counted : AfeCommand → ℕ → M F AfeCommandReply
  submit_counted command frame_count = reserve frame_count >>= submit_numbered command frame_count

  -- From the validation on.
  unfoldable pub submit_valid : AfeCommand → M F AfeCommandReply
  submit_valid command =
      lift
        (map_err (λ e. RpuError.rejected (wire_error_text e)) (frame_count_for_afe_command command))
      >>= submit_counted command

  unfoldable pub submit_afe_command : AfeCommand → M F AfeCommandReply
  submit_afe_command command =
      lift (map_err (λ e. RpuError.rejected (validation_error_text e)) (validate command))
      >> submit_valid command

  -- The number of a status query.
  unfoldable pub take_sequence : M F ℕ
  take_sequence t =
      let (next, sequence) = next_sequence t.next_sequence in
      (record t { next_sequence = next }, ok sequence)

  -- The answer of `status` to the result of `transact`.
  abbrev pub link_status : RpuWireReply → M F RpuLinkStatus
  link_status reply t = (
    t,
    ok (record {
      available = true;
      running = is_running reply.status;
      firmware = some (ascii "rpmsg-rpu-wire-abi-v2");
      heartbeat = some reply.heartbeat;
      last_fault = t.last_fault;
    }),
  )

  unfoldable pub status : M F RpuLinkStatus
  status = do
    sequence ← take_sequence
    reply ← transact (Command.status sequence)
    link_status reply

  -- `impl RpuAfeTransport for RpmsgAfeTransport`
  abbrev pub rpmsg_transport : RpuAfeTransport (RpmsgAfeTransport F)
  rpmsg_transport = record {
    status = status;
    submit_afe_command = λ t command. submit_afe_command command t;
  }
