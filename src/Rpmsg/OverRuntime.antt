-- ===== src/Rpmsg/OverRuntime.antt =====
-- The transport of crates/daphne-sc-server/src/rpmsg.rs with the runtime of crates/daphne-sc-rpu/src/lib.rs
-- at the other end of its file.
use daphne_sc.Rpmsg.Device.{◌>>=◌, ◌>>◌, RpmsgFile, PollOutcome, RpmsgAfeTransport, on_file}
use daphne_sc.Rpmsg.Device
use daphne_sc.Rpmsg.Transact.{
  note_reply, readable, wait_readable, check_sequence, take_reply, transact,
}
use daphne_sc.Prelude.{ℕ, ◌<◌, ◌^◌, ◌≡◌, refl, sym, ap, ◌∙◌, subst, List, [], length}
use daphne_sc.Prelude.{
  ◌==◌, ==_self, ltb, ◌++◌, take, drop, take-length, drop-length, none, some, Result, ok, err,
  if◌then◌else◌,
}
use daphne_sc.Text.{ascii}
use daphne_sc.Rpu.{RpuError}
use daphne_sc.Bytes.{get_u64}
use daphne_sc.Wire.Command.{RpuWireCommand, IsCommand, encode}
use daphne_sc.Wire.RoundTrip.{decode-encode}
use daphne_sc.Wire.Reply.{RpuWireReply, IsReply, rpu_wire_reply_len}
use daphne_sc.Wire.Reply
use daphne_sc.Wire.Reply.RoundTrip.{length-encode, reply_decode-encode, get_u64-encode}
use daphne_sc.Runtime.Hardware.{AfeHardware, RpuRuntime}
use daphne_sc.Runtime.Handler.{handle_frame}
use daphne_sc.Runtime.Safety.{reply_lem}

-- The runtime, and the bytes of its replies that have not been read, oldest first.
pub record RuntimeFile (H : Type 0) : Type 0 where
  pub runtime : RpuRuntime H
  pub pending : List ℕ

-- A write hands the frame to the runtime, whose reply comes after those that have not been read. A read takes
-- the oldest bytes, or all and fails where they are too few.
abbrev pub runtime_file : {H E : Type 0} → AfeHardware H E → RpmsgFile (RuntimeFile H)
runtime_file hw = record {
  write_all = λ f bytes. elim (handle_frame hw f.runtime bytes) [
    | none ↦ (f, ok tt)
    | some (runtime, output) ↦ (record { runtime = runtime; pending = f.pending ++ output }, ok tt)
  ];
  flush = λ f. (f, ok tt);
  poll = λ f timeout.
      (f, if length f.pending == 0 then PollOutcome.timed_out else PollOutcome.ready 1);
  read_exact = λ f count. (
    record f { pending = drop count f.pending },
    if ltb (length f.pending) count
        then err (ascii "unexpected end of file")
        else ok (take count f.pending),
  );
}

module _ {F A : Type 0} (t : RpmsgAfeTransport F) {t' : RpmsgAfeTransport F} where
  -- A step that succeeds.
  pub >>-ok : (m : Device.M F (Unit {0})) (k : Device.M F A) → m t ≡ (t', ok tt) → (m >> k) t ≡ k t'
  >>-ok m k e =
      ap
        (λ (p : RpmsgAfeTransport F × Result RpuError (Unit {0})). elim (p.1) [
          | ok _ ↦ k p.0
          | err x ↦ (p.0, err x)
        ])
        e

  pub >>=-ok :
      {B : Type 0} {b : B} (m : Device.M F B) (f : B → Device.M F A)
      → m t ≡ (t', ok b)
      → (m >>= f) t ≡ f b t'
  >>=-ok {B} m f e =
      ap
        (λ (p : RpmsgAfeTransport F × Result RpuError B). elim (p.1) [
          | ok b ↦ f b p.0
          | err x ↦ (p.0, err x)
        ])
        e

module _ {H E : Type 0} (hw : AfeHardware H E) where
  -- The transport after a reply.
  abbrev pub after_reply :
      RpmsgAfeTransport (RuntimeFile H)
      → RpuRuntime H
      → RpuWireReply
      → RpmsgAfeTransport (RuntimeFile H)
  after_reply t runtime reply =
      note_reply reply (record t { file = record { runtime = runtime; pending = [] } })

  abbrev writing : RpuWireCommand → Device.M (RuntimeFile H) (Unit {0})
  writing c =
      on_file (ascii "writing RPU command: ") (λ f. (runtime_file hw).write_all f (encode c))

  abbrev flushing : Device.M (RuntimeFile H) (Unit {0})
  flushing = on_file (ascii "flushing RPU command: ") (runtime_file hw).flush

  abbrev reading : Device.M (RuntimeFile H) (List ℕ)
  reading =
      on_file (ascii "reading RPU reply: ") (λ f. (runtime_file hw).read_exact f rpu_wire_reply_len)

  -- What is left of `transact` after each of its steps.
  abbrev read_then : RpuWireCommand → Device.M (RuntimeFile H) RpuWireReply
  read_then c = reading >>= take_reply (runtime_file hw) c.sequence

  abbrev wait_then : RpuWireCommand → Device.M (RuntimeFile H) RpuWireReply
  wait_then c = wait_readable (runtime_file hw) >> read_then c

  abbrev flush_then : RpuWireCommand → Device.M (RuntimeFile H) RpuWireReply
  flush_then c = flushing >> wait_then c

  pub transact_lem :
      (t : RpmsgAfeTransport (RuntimeFile H)) (c : RpuWireCommand) (rt : RpuRuntime H)
      (reply : RpuWireReply)
      → t.file.pending ≡ []
      → handle_frame hw t.file.runtime (encode c) ≡ some (rt, Reply.encode reply)
      → IsReply reply
      → reply.sequence ≡ c.sequence
      → transact (runtime_file hw) c t ≡ (after_reply t rt reply, ok reply)
  unfolding transact wait_readable readable take_reply check_sequence
  transact_lem t c rt reply unread answer fits same =
      >>-ok t (writing c) (flush_then c) written
      ∙ >>-ok sent flushing (wait_then c) refl
      ∙ >>-ok sent (wait_readable (runtime_file hw)) (read_then c) waited
      ∙ >>=-ok sent reading (take_reply (runtime_file hw) c.sequence) received
      ∙ taken
    where
      sent : RpmsgAfeTransport (RuntimeFile H)
      sent = record t { file = record { runtime = rt; pending = Reply.encode reply } }

      done : RpmsgAfeTransport (RuntimeFile H)
      done = record t { file = record { runtime = rt; pending = [] } }

      take_all : take rpu_wire_reply_len (Reply.encode reply) ≡ Reply.encode reply
      take_all = take-length (Reply.encode reply) rpu_wire_reply_len (length-encode reply)

      drop_all : drop rpu_wire_reply_len (Reply.encode reply) ≡ []
      drop_all = drop-length (Reply.encode reply) rpu_wire_reply_len (length-encode reply)

      written : writing c t ≡ (sent, ok tt)
      written = rw (answer, unread, runtime_file)

      waited : wait_readable (runtime_file hw) sent ≡ (sent, ok tt)
      waited = rw (length-encode reply, wait_readable)

      received : reading sent ≡ (done, ok (Reply.encode reply))
      received = rw (length-encode reply, take_all, drop_all, runtime_file)

      taken :
          take_reply (runtime_file hw) c.sequence (Reply.encode reply) done
          ≡ (after_reply t rt reply, ok reply)
      taken =
          rw (reply_decode-encode reply fits, take_reply, same, ==_self c.sequence, check_sequence)

  -- The number of the command is that of the reply that is read.
  pub same_sequence :
      (rt rt' : RpuRuntime H) (c : RpuWireCommand) (reply : RpuWireReply)
      → IsCommand c
      → handle_frame hw rt (encode c) ≡ some (rt', Reply.encode reply)
      → IsReply reply
      → reply.sequence ≡ c.sequence
  same_sequence rt rt' c reply w answer fits =
      let (sent, e, hb, kept, lock, good, bad) = reply_lem hw rt (encode c) rt' _ answer in
      let same = good c (decode-encode c w) in
      sym (get_u64-encode reply fits.sequence_lt)
      ∙ ap (λ (bytes : List ℕ). get_u64 bytes 8) e
      ∙ get_u64-encode sent (subst (λ (n : ℕ). n < 2 ^ 64) (sym same) w.sequence_lt)
      ∙ same
