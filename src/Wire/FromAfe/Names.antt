-- ===== src/Wire/FromAfe/Names.antt =====
-- The name of an AFE function on its way through a frame.
use daphne_sc.Prelude.{ℕ, ◌≤◌, ◌<◌, ◌≡◌, refl, arith, List, length, true, false, ok, err}
use daphne_sc.Prelude.{◌==◌, lt→ltb, le→ltb_false}
use daphne_sc.Prelude.Utf8.{is_utf8}
use daphne_sc.Afe.{AfeId, AfeCommand}
use daphne_sc.Wire.Ops.{RpuWireOp, RpuWireTarget}
use daphne_sc.Wire.Error.{RpuWireError, require_op}
use daphne_sc.Wire.Command.{RpuWireCommand, status}
use daphne_sc.Wire.Payload.{set_function_name, function_name}
use daphne_sc.Wire.Payload.Laws.{set_function_name_ok}
use daphne_sc.Wire.FromAfe.{from_afe_command, set_afe}

positive-ne-zero : (n : ℕ) → 1 ≤ n → (n == 0) ≡ false
positive-ne-zero n h = ground arith

module _ (sequence : ℕ) (afe : AfeId) (name : List ℕ) (value : ℕ) where
  sent :
      1 ≤ length name
      → length name ≤ 31
      → is_utf8 name ≡ true
      → (c : RpuWireCommand) × (from_afe_command sequence (AfeCommand.write_function afe name value)
          ≡ ok c)
        × (function_name c ≡ ok name)
        × (c.target ≡ RpuWireTarget.afe)
        × (c.afe_pl ≡ afe.pl)
        × (c.value ≡ value)
  unfolding from_afe_command function_name require_op
  sent lo hi valid =
      let (p, stored, len, count, text) = set_function_name_ok name lo hi in
      (
        record (set_afe (record (status sequence) { op = RpuWireOp.write_function }) afe) {
          value = value;
          payload = p;
        },
        rw stored,
        rw (count, text, valid, le→ltb_false _ _ hi, positive-ne-zero (length name) lo),
        refl,
        refl,
        refl,
      )

  empty_name :
      length name ≡ 0
      → from_afe_command sequence (AfeCommand.write_function afe name value)
        ≡ err (RpuWireError.bad_payload "AFE function name is empty")
  unfolding from_afe_command set_function_name
  empty_name h = rw h

  long_name :
      31 < length name
      → from_afe_command sequence (AfeCommand.write_function afe name value)
        ≡ err (RpuWireError.payload_too_long "AFE function name" 31 (length name))
  unfolding from_afe_command set_function_name
  long_name h = rw (positive-ne-zero (length name) (omega arith), lt→ltb _ _ h)

  -- A function name of 1 to 31 bytes is sent in one frame to the AFE asked for, with the value, and the
  -- receiver reads the same name from it. An empty name and a longer one are refused, each with its
  -- own error.
  pub write_function_lem :
      is_utf8 name ≡ true
      → (1 ≤ length name
          → length name ≤ 31
          → (c : RpuWireCommand) × (from_afe_command sequence
                (AfeCommand.write_function afe name value)
              ≡ ok c)
            × (function_name c ≡ ok name)
            × (c.target ≡ RpuWireTarget.afe)
            × (c.afe_pl ≡ afe.pl)
            × (c.value ≡ value))
        × (length name ≡ 0
            → from_afe_command sequence (AfeCommand.write_function afe name value)
              ≡ err (RpuWireError.bad_payload "AFE function name is empty"))
        × (31 < length name
            → from_afe_command sequence (AfeCommand.write_function afe name value)
              ≡ err (RpuWireError.payload_too_long "AFE function name" 31 (length name)))
  write_function_lem valid = (λ lo hi. sent lo hi valid, empty_name, long_name)
