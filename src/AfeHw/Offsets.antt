-- ===== src/AfeHw/Offsets.antt =====
-- Where the registers of the AFEs and the samples of the spy buffers lie in the map of
-- crates/daphne-sc-core/src/afe_hw.rs.
use daphne_sc.Prelude.{ℕ, ◌<◌, ◌≡◌, arith, Option, some}
use daphne_sc.AfeHw.{afe_register_offset, frontend_register_offset, spy_buffer_channel_offset}
use daphne_sc.AfeHw.{afe_control_offset, afe_dac_trim_offset, afe_dac_offset_offset}
use daphne_sc.AfeHw.{frontend_delay_offset, frontend_bitslip_offset}

-- The kinds of register that there is one of for each AFE.
pub data PerAfe : Type 0 where
  control dac_trim dac_offset delay bitslip : PerAfe

abbrev pub offset_of : PerAfe → ℕ → Option ℕ
offset_of PerAfe.control afe = afe_control_offset afe
offset_of PerAfe.dac_trim afe = afe_dac_trim_offset afe
offset_of PerAfe.dac_offset afe = afe_dac_offset_offset afe
offset_of PerAfe.delay afe = frontend_delay_offset afe
offset_of PerAfe.bitslip afe = frontend_bitslip_offset afe

-- The offset of a register that there is one of for each AFE tells which kind it is and which AFE it
-- belongs to.
pub offset_of-injective :
    (k k' : PerAfe) (i j x : ℕ)
    → offset_of k i ≡ some x
    → offset_of k' j ≡ some x
    → (k ≡ k') × (i ≡ j)
unfolding afe_register_offset frontend_register_offset
offset_of-injective PerAfe.control PerAfe.control i j x hi hj = ground arith
offset_of-injective _ _ i j x hi hj = ground arith

-- Up to 1024 samples of a channel, the address of a sample in the spy buffers tells the AFE, the
-- channel and the sample.
pub spy_buffer-injective :
    (i j c d s t x : ℕ)
    → s < 1024
    → t < 1024
    → spy_buffer_channel_offset i c s ≡ some x
    → spy_buffer_channel_offset j d t ≡ some x
    → (i ≡ j) × (c ≡ d) × (s ≡ t)
unfolding spy_buffer_channel_offset
spy_buffer-injective i j c d s t x hs ht hi hj = ground arith
