-- ===== src/Mmio/Channels.antt =====
-- Trim and offset DACs of crates/daphne-sc-rpu/src/mmio.rs. Two channels of an AFE share a word, so the
-- backend keeps the half of every channel.
use daphne_sc.Prelude.{ℕ, bit_and, List, [], get_or, set, Bool, false, not, ◌==◌, leb}
use daphne_sc.Prelude.{Result, ok, err, ok_or, if◌then◌else◌}
use daphne_sc.Afe.{afe_count, channels_per_afe}
use daphne_sc.AfeHw.{afe_dac_trim_offset, afe_dac_offset_offset, dac_companion_channel}
use daphne_sc.AfeHw.{dac_trim_offset_half, dac_channel_is_high_half, dac_pair_word}
use daphne_sc.Wire.Ops.{RpuWireOp, RpuWireTarget, target_eq}
use daphne_sc.Wire.Command.{RpuWireCommand}
use daphne_sc.Mmio.Backend.{
  RegisterIo, MmioAfeError, AfeMmioBackend, M, ◌>>=◌, ◌>>◌, pure, raise, lift, gets,
}
use daphne_sc.Mmio.Backend.{modify, for_each, validate_afe, require_12bit}
use daphne_sc.Mmio.Access.{write, wait_afe_ready}

-- The `offset` of `write_trim_or_offset_channel`.
unfoldable pub channel_dac_offset : {E : Type 0} → RpuWireOp → ℕ → Result (MmioAfeError E) ℕ
channel_dac_offset RpuWireOp.set_trim afe_pl =
    ok_or (afe_dac_trim_offset afe_pl) (MmioAfeError.invalid_afe afe_pl)
channel_dac_offset RpuWireOp.set_offset afe_pl =
    ok_or (afe_dac_offset_offset afe_pl) (MmioAfeError.invalid_afe afe_pl)
channel_dac_offset _ afe_pl = err MmioAfeError.unsupported

-- `halves` of `write_trim_or_offset_channel`; no operation but the two gets there.
abbrev pub halves_of : {I : Type 0} → RpuWireOp → AfeMmioBackend I → List (List ℕ)
halves_of RpuWireOp.set_offset b = b.offset_halves
halves_of _ b = b.trim_halves

abbrev pub with_halves :
    {I : Type 0} → RpuWireOp → AfeMmioBackend I → List (List ℕ) → AfeMmioBackend I
with_halves RpuWireOp.set_offset b halves = record b { offset_halves = halves }
with_halves _ b halves = record b { trim_halves = halves }

abbrev pub half_at : List (List ℕ) → ℕ → ℕ → ℕ
half_at halves afe channel = get_or (get_or halves afe []) channel 0

abbrev pub set_half : List (List ℕ) → ℕ → ℕ → ℕ → List (List ℕ)
set_half halves afe channel half = set halves afe (set (get_or halves afe []) channel half)

-- `word`, from the two halves.
unfoldable pub channel_word : ℕ → ℕ → ℕ → ℕ
channel_word afe_channel half companion_half =
    if dac_channel_is_high_half afe_channel
    then dac_pair_word companion_half half
    else dac_pair_word half companion_half

module _ {I E : Type 0} (io : RegisterIo I E) where
  unfoldable pub write_trim_or_offset_channel : RpuWireOp → ℕ → ℕ → ℕ → Bool → M I E (Unit {0})
  write_trim_or_offset_channel op afe_pl afe_channel value gain = do
    offset ← lift (channel_dac_offset op afe_pl)
    companion ←
        lift (ok_or (dac_companion_channel afe_channel) (MmioAfeError.invalid_channel afe_channel))
    let half = dac_trim_offset_half afe_channel value gain false
    modify (λ b. with_halves op b (set_half (halves_of op b) afe_pl afe_channel half))
    companion_half ← gets (λ b. half_at (halves_of op b) afe_pl companion)
    wait_afe_ready io
    write io offset (channel_word afe_channel half companion_half)
    wait_afe_ready io

  -- `halves` of `read_trim_or_offset_channel`.
  abbrev pub cached_halves : RpuWireOp → M I E (List (List ℕ))
  cached_halves RpuWireOp.read_trim = gets (λ b. b.trim_halves)
  cached_halves RpuWireOp.read_offset = gets (λ b. b.offset_halves)
  cached_halves _ = raise MmioAfeError.unsupported

  unfoldable pub read_trim_or_offset_channel : RpuWireOp → ℕ → ℕ → M I E ℕ
  read_trim_or_offset_channel op afe_pl afe_channel = do
    lift (validate_afe afe_pl)
    lift (
        if leb channels_per_afe afe_channel
        then err (MmioAfeError.invalid_channel afe_channel)
        else ok tt)
    halves ← cached_halves op
    pure (bit_and (half_at halves afe_pl afe_channel) 0x0FFF)

  unfoldable pub read_channel_scalar : RpuWireCommand → M I E ℕ
  unfolding target_eq
  read_channel_scalar command =
      if not (target_eq command.target RpuWireTarget.channel)
      then raise MmioAfeError.unsupported
      else read_trim_or_offset_channel command.op command.afe_pl command.afe_channel

  unfoldable pub write_channels : RpuWireCommand → RpuWireTarget → ℕ → Bool → M I E (Unit {0})
  write_channels command RpuWireTarget.channel value gain =
      write_trim_or_offset_channel command.op command.afe_pl command.afe_channel value gain
  write_channels command RpuWireTarget.afe value gain = do
    lift (validate_afe command.afe_pl)
    for_each 0 channels_per_afe (λ afe_channel.
        write_trim_or_offset_channel command.op command.afe_pl afe_channel value gain)
  write_channels command RpuWireTarget.all value gain = for_each 0 afe_count (λ afe_pl.
      for_each 0 channels_per_afe
        (λ afe_channel. write_trim_or_offset_channel command.op afe_pl afe_channel value gain))
  write_channels command RpuWireTarget.none value gain = raise MmioAfeError.unsupported

  unfoldable pub write_channel_scalar : RpuWireCommand → M I E ℕ
  write_channel_scalar command = do
    value ← lift (require_12bit command.value)
    write_channels command command.target value (not (command.flags == 0))
    pure value
