-- ===== src/Tests/Collector.antt =====
-- Some of the tests of crates/daphne-sc-server/src/status_collector.rs, and the theorems on it, on a board with two
-- buses and a temperature.
use daphne_sc.Prelude.{
  ℕ, ◌+◌, ◌*◌, ◌/◌, ◌^◌, ◌≡◌, ◌↔◌, ◌⊎◌, refl, true, List, [], ◌∷◌, none, some, ok, err,
  if◌then◌else◌, arith,
}
use daphne_sc.Text.{ascii}
use daphne_sc.Text.Strings.{text_eq, strip_prefix, is_empty}
use daphne_sc.Text.Parse.{parse_unsigned}
use daphne_sc.Board.{Board}
use daphne_sc.Server.Collector.Floats.{
  ℤ, Floats, sign_extend, complement, decode_linear11, decode_linear11_lem,
}
use daphne_sc.Server.Collector.Buses.{parse_i2c_bus_from_detail, collect_i2c_status}
use daphne_sc.Server.Preflight.{PreflightStatus}
use daphne_sc.Server.Collector.Devices.{ChipFound, Listed, collect_i2c_status_lem}
use daphne_sc.Server.Collector.Registered.{Registered}
use daphne_sc.Server.Collector.Services.{remoteproc_state_detail}
use daphne_sc.Tests.Board.{fake_board}

-- parses_i2c_bus_from_clockchip_detail
parsed_bus : parse_i2c_bus_from_detail (ascii "0x70 present on /dev/i2c-2; 0xE6=0x06") ≡ some 2
unfolding parse_i2c_bus_from_detail strip_prefix parse_unsigned
parsed_bus = refl

-- formats_remoteproc_state_with_firmware_name
formatted_state :
    remoteproc_state_detail (ascii "running") (some (ascii "rpu-daphne-sc.elf"))
    ≡ ascii "running; firmware=rpu-daphne-sc.elf"
unfolding remoteproc_state_detail is_empty
formatted_state = refl

-- The mantissas and exponents of decodes_pmbus_linear_formats.
mantissas :
    (sign_extend 0x001 11 ≡ ℤ.pos 1)
    × (sign_extend 0x7ff 11 ≡ ℤ.negsuc 0)
    × (sign_extend 0x1f 5 ≡ ℤ.negsuc 0)
unfolding sign_extend
mantissas = (refl, refl, refl)

-- Numbers in place of `f64`, in thousandths and without signs.
abbrev fake_floats : Floats
fake_floats = record {
  of_i32 = λ z. elim z [ ℤ.pos n ↦ n | ℤ.negsuc n ↦ 0 ];
  mul = λ a b. a * b / 1000;
  div = λ a b. a;
  powi_2 = λ e. 1000;
  parse = λ text. if text_eq text (ascii "45000") then ok 45000 else err (ascii "invalid float");
}

abbrev warm_board : Board ℕ (List ℕ)
warm_board = record fake_board {
  read_to_string = λ path k.
      if text_eq path (ascii "/sys/class/thermal/thermal_zone0/temp")
      then ok (ascii "45000")
      else err (ascii "No such file");
  read_dir = λ path k.
      if text_eq path (ascii "/sys/class/thermal")
      then some (ascii "thermal_zone0" ∷ ascii "cooling_device0" ∷ [])
      else if text_eq path (ascii "/sys/bus/i2c/devices")
      then some (ascii "2-0071" ∷ ascii "2-0048" ∷ ascii "i2c-2" ∷ [])
      else none;
}

decode_linear11_lem_example :
    decode_linear11 fake_floats (complement 5 (ℤ.negsuc 0) * 2 ^ 11 + complement 11 (ℤ.pos 7))
    ≡ 7 * 1000 / 1000
decode_linear11_lem_example =
    decode_linear11_lem fake_floats (ℤ.pos 7) (ℤ.negsuc 0) (omega arith) (omega arith)

-- The devices 0x71 and 0x48 of the bus 2 are registered, and the clock chip is found there.
abbrev chip_found : PreflightStatus
chip_found = record {
  checks =
      record {
        name = ascii "clockchip_i2c";
        ok = true;
        detail = ascii "0x70 present on /dev/i2c-2; 0xE6=0x06";
      }
      ∷ [];
}

collect_i2c_status_lem_example :
    Listed 2 0x71 (collect_i2c_status warm_board fake_floats 3 chip_found) ↔ (
      ChipFound 2 0x71 chip_found.checks
      ⊎ Registered 2 0x71 (warm_board.read_dir (ascii "/sys/bus/i2c/devices") 3))
collect_i2c_status_lem_example = collect_i2c_status_lem 2 0x71 warm_board fake_floats 3 chip_found
