-- ===== src/ClockChip/Registers.antt =====
-- The register image of crates/daphne-sc-core/src/clockchip.rs, with its constants and ranges.
use daphne_sc.Prelude.{ℕ, List, [], ◌∷◌, Bool, false, ◌&&◌, ◌||◌, leb, if◌then◌else◌}

pub record ClockChipRegister : Type 0 where
  pub register : ℕ  -- u8
  pub value : ℕ  -- u8

abbrev pub reg : ℕ → ℕ → ClockChipRegister
reg register value = record { register = register; value = value }

abbrev pub clockchip_default_addr : ℕ
clockchip_default_addr = 0x70

abbrev pub clockchip_discovery_addrs : List ℕ
clockchip_discovery_addrs = 0x70 ∷ 0x71 ∷ 0x72 ∷ []

abbrev pub clockchip_sanity_register : ℕ
clockchip_sanity_register = 0xe6

abbrev pub clockchip_sanity_value : ℕ
clockchip_sanity_value = 0x06

abbrev pub clockchip_reset_register : ℕ
clockchip_reset_register = 0xf6

abbrev pub clockchip_reset_sequence : List ℕ
clockchip_reset_sequence = 0x02 ∷ 0x00 ∷ []

pub record ClockChipRange : Type 0 where
  pub start : ℕ
  pub end : ℕ

-- `ClockChipRange::new`
unfoldable pub new_range : ℕ → ℕ → ClockChipRange
new_range start end =
    if leb start end
    then record { start = start; end = end }
    else record { start = end; end = start }

-- `ClockChipRange::contains`
unfoldable pub in_range : ClockChipRange → ℕ → Bool
in_range range register = leb range.start register && leb register range.end

-- `ranges.iter().any(|range| range.contains(register))`
unfoldable pub any_range : List ClockChipRange → ℕ → Bool
unfolding in_range
any_range [] register = false
any_range (range ∷ ranges) register = in_range range register || any_range ranges register

unfoldable pub clockchip_registers : List ClockChipRegister
clockchip_registers =
    reg 0x06 0x08
    ∷ reg 0x1c 0x0b
    ∷ reg 0x1d 0x08
    ∷ reg 0x1e 0xb0
    ∷ reg 0x1f 0xc0
    ∷ reg 0x20 0xe3
    ∷ reg 0x21 0xe3
    ∷ reg 0x22 0xc0
    ∷ reg 0x23 0x41
    ∷ reg 0x24 0x06
    ∷ reg 0x25 0x00
    ∷ reg 0x26 0x00
    ∷ reg 0x27 0x06
    ∷ reg 0x28 0x64
    ∷ reg 0x29 0x0c
    ∷ reg 0x2a 0x24
    ∷ reg 0x2d 0x00
    ∷ reg 0x2e 0x00
    ∷ reg 0x2f 0x14
    ∷ reg 0x30 0x3a
    ∷ reg 0x31 0x00
    ∷ reg 0x32 0xc4
    ∷ reg 0x33 0x07
    ∷ reg 0x34 0x10
    ∷ reg 0x35 0x00
    ∷ reg 0x36 0x06
    ∷ reg 0x37 0x00
    ∷ reg 0x38 0x00
    ∷ reg 0x39 0x00
    ∷ reg 0x3a 0x00
    ∷ reg 0x3b 0x01
    ∷ reg 0x3c 0x00
    ∷ reg 0x3d 0x00
    ∷ reg 0x3e 0x00
    ∷ reg 0x3f 0x10
    ∷ reg 0x40 0x00
    ∷ reg 0x41 0x00
    ∷ reg 0x42 0x00
    ∷ reg 0x43 0x00
    ∷ reg 0x44 0x00
    ∷ reg 0x45 0x00
    ∷ reg 0x46 0x00
    ∷ reg 0x47 0x00
    ∷ reg 0x48 0x00
    ∷ reg 0x49 0x00
    ∷ reg 0x4a 0x10
    ∷ reg 0x4b 0x00
    ∷ reg 0x4c 0x00
    ∷ reg 0x4d 0x00
    ∷ reg 0x4e 0x00
    ∷ reg 0x4f 0x00
    ∷ reg 0x50 0x00
    ∷ reg 0x51 0x00
    ∷ reg 0x52 0x00
    ∷ reg 0x53 0x00
    ∷ reg 0x54 0x00
    ∷ reg 0x55 0x10
    ∷ reg 0x56 0x80
    ∷ reg 0x57 0x0a
    ∷ reg 0x58 0x00
    ∷ reg 0x59 0x00
    ∷ reg 0x5a 0x00
    ∷ reg 0x5b 0x00
    ∷ reg 0x5c 0x01
    ∷ reg 0x5d 0x00
    ∷ reg 0x5e 0x00
    ∷ reg 0x5f 0x00
    ∷ reg 0x61 0x00
    ∷ reg 0x62 0x30
    ∷ reg 0x63 0x00
    ∷ reg 0x64 0x00
    ∷ reg 0x65 0x00
    ∷ reg 0x66 0x00
    ∷ reg 0x67 0x01
    ∷ reg 0x68 0x00
    ∷ reg 0x69 0x00
    ∷ reg 0x6a 0x80
    ∷ reg 0x6b 0x00
    ∷ reg 0x6c 0x00
    ∷ reg 0x6d 0x00
    ∷ reg 0x6e 0x40
    ∷ reg 0x6f 0x00
    ∷ reg 0x70 0x00
    ∷ reg 0x71 0x00
    ∷ reg 0x72 0x40
    ∷ reg 0x73 0x00
    ∷ reg 0x74 0x80
    ∷ reg 0x75 0x00
    ∷ reg 0x76 0x40
    ∷ reg 0x77 0x00
    ∷ reg 0x78 0x00
    ∷ reg 0x79 0x00
    ∷ reg 0x7a 0x40
    ∷ reg 0x7b 0x00
    ∷ reg 0x7c 0x00
    ∷ reg 0x7d 0x00
    ∷ reg 0x7e 0x00
    ∷ reg 0x7f 0x00
    ∷ reg 0x80 0x00
    ∷ reg 0x81 0x00
    ∷ reg 0x82 0x00
    ∷ reg 0x83 0x00
    ∷ reg 0x84 0x00
    ∷ reg 0x85 0x00
    ∷ reg 0x86 0x00
    ∷ reg 0x87 0x00
    ∷ reg 0x88 0x00
    ∷ reg 0x89 0x00
    ∷ reg 0x8a 0x00
    ∷ reg 0x8b 0x00
    ∷ reg 0x8c 0x00
    ∷ reg 0x8d 0x00
    ∷ reg 0x8e 0x00
    ∷ reg 0x8f 0x00
    ∷ reg 0x90 0x00
    ∷ reg 0x98 0x00
    ∷ reg 0x99 0x00
    ∷ reg 0x9a 0x00
    ∷ reg 0x9b 0x00
    ∷ reg 0x9c 0x00
    ∷ reg 0x9d 0x00
    ∷ reg 0x9e 0x00
    ∷ reg 0x9f 0x00
    ∷ reg 0xa0 0x00
    ∷ reg 0xa1 0x00
    ∷ reg 0xa2 0x00
    ∷ reg 0xa3 0x00
    ∷ reg 0xa4 0x00
    ∷ reg 0xa5 0x00
    ∷ reg 0xa6 0x00
    ∷ reg 0xa7 0x00
    ∷ reg 0xa8 0x00
    ∷ reg 0xa9 0x00
    ∷ reg 0xaa 0x00
    ∷ reg 0xab 0x00
    ∷ reg 0xac 0x00
    ∷ reg 0xad 0x00
    ∷ reg 0xae 0x00
    ∷ reg 0xaf 0x00
    ∷ reg 0xb0 0x00
    ∷ reg 0xb1 0x00
    ∷ reg 0xb2 0x00
    ∷ reg 0xb3 0x00
    ∷ reg 0xb4 0x00
    ∷ reg 0xb5 0x00
    ∷ reg 0xb6 0x00
    ∷ reg 0xb7 0x00
    ∷ reg 0xb8 0x00
    ∷ reg 0xb9 0x00
    ∷ reg 0xba 0x00
    ∷ reg 0xbb 0x00
    ∷ reg 0xbc 0x00
    ∷ reg 0xbd 0x00
    ∷ reg 0xbe 0x00
    ∷ reg 0xbf 0x00
    ∷ reg 0xc0 0x00
    ∷ reg 0xc1 0x00
    ∷ reg 0xc2 0x00
    ∷ reg 0xc3 0x00
    ∷ reg 0xc4 0x00
    ∷ reg 0xc5 0x00
    ∷ reg 0xc6 0x00
    ∷ reg 0xc7 0x00
    ∷ reg 0xc8 0x00
    ∷ reg 0xc9 0x00
    ∷ reg 0xca 0x00
    ∷ reg 0xcb 0x00
    ∷ reg 0xcc 0x00
    ∷ reg 0xcd 0x00
    ∷ reg 0xce 0x00
    ∷ reg 0xcf 0x00
    ∷ reg 0xd0 0x00
    ∷ reg 0xd1 0x00
    ∷ reg 0xd2 0x00
    ∷ reg 0xd3 0x00
    ∷ reg 0xd4 0x00
    ∷ reg 0xd5 0x00
    ∷ reg 0xd6 0x00
    ∷ reg 0xd7 0x00
    ∷ reg 0xd8 0x00
    ∷ reg 0xd9 0x00
    ∷ reg 0xe6 0x06
    ∷ []
