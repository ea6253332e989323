-- ===== src/Server/Collector/Readings.antt =====
-- The temperatures and the rails of crates/daphne-sc-server/src/status_collector.rs. A function that pushes to
-- `errors` gives its readings and what it pushes.
use daphne_sc.Prelude.{ℕ, List, [], ◌∷◌, ◌++◌, true}
use daphne_sc.Prelude.{Option, none, some, Result, ok, err}
use daphne_sc.Prelude.Actions.{Action, ◌>>=◌, ◌>>◌, pure, wrap_err}
use daphne_sc.Text.{Text, ascii, decimal, upper_hex_wide}
use daphne_sc.Board.{Board}
use daphne_sc.I2c.{i2c_error_text, open_device, set_pec, read_word_data}
use daphne_sc.Server.Status.{TemperatureReading, RailReading, unwrap_or}
use daphne_sc.Server.Collector.Floats.{ℤ, Floats, decode_linear16, decode_linear11}
use daphne_sc.Server.Collector.Sysfs.{
  Entry, IndexedInput, read_trimmed, read_scaled, glob_paths, indexed_inputs,
}

abbrev pub Collected : Type 0 → Type 0
Collected A = List A × List Text

abbrev pub both : {A : Type 0} → Collected A → Collected A → Collected A
both (xs, es) (ys, fs) = (xs ++ ys, es ++ fs)

-- A reading, or the error with this text before it.
unfoldable pub push : {A : Type 0} → Text → Result Text A → Collected A
push what (ok reading) = (reading ∷ [], [])
push what (err e) = ([], (what ++ e) ∷ [])

-- A loop whose rounds push readings and errors.
unfoldable pub for_each : {X A : Type 0} → (X → Collected A) → List X → Collected A
for_each round [] = ([], [])
for_each round (x ∷ xs) = both (round x) (for_each round xs)

pub record PmbusRegulator : Type 0 where
  pub name : Text
  pub address : ℕ

abbrev pub pmbus_bus : ℕ
pmbus_bus = 2

abbrev pub pmbus_read_vout : ℕ
pmbus_read_vout = 0x8b

abbrev pub pmbus_read_iout : ℕ
pmbus_read_iout = 0x8c

unfoldable pub pmbus_regulators : List PmbusRegulator
pmbus_regulators =
    record { name = ascii "3VD3"; address = 0x12 }
    ∷ record { name = ascii "2VA1"; address = 0x16 }
    ∷ record { name = ascii "3VA6"; address = 0x32 }
    ∷ record { name = ascii "1VD8"; address = 0x36 }
    ∷ []

abbrev thousand : ℤ
thousand = ℤ.pos 1000

abbrev million : ℤ
million = ℤ.pos 1000000

module _ {K F : Type 0} (board : Board K F) (floats : Floats) where
  module _ (k : K) where
    -- `read_millidegrees`
    unfoldable pub read_millidegrees : Text → Result Text ℕ
    read_millidegrees path = read_scaled board floats k path (floats.of_i32 thousand)

    -- The name that a file of the entry gives, or that of the entry.
    abbrev name_from : Entry → Text → Text
    name_from entry file =
        unwrap_or (read_trimmed board floats k (entry.path ++ ascii "/" ++ file)) entry.name

    -- The label of an input, or the prefix with its index.
    abbrev label_of : Entry → Text → IndexedInput → Text
    label_of entry prefix input =
        let plain = prefix ++ decimal input.index in
        unwrap_or (read_trimmed board floats k (entry.path ++ ascii "/" ++ plain ++ ascii "_label"))
          plain

    abbrev temperature : Text → Text → Text → Collected TemperatureReading
    temperature what name path = push what (elim (read_millidegrees path) [
      | ok celsius ↦ ok (record { name = name; celsius = celsius })
      | err e ↦ err e
    ])

    unfoldable pub thermal_zone : Entry → Collected TemperatureReading
    thermal_zone zone =
        temperature (ascii "thermal temperature read failed: ") (name_from zone (ascii "type"))
          (zone.path ++ ascii "/temp")

    unfoldable pub hwmon_temperatures : Entry → Collected TemperatureReading
    hwmon_temperatures hwmon =
        for_each
          (λ input.
            temperature (ascii "hwmon temperature read failed: ")
              (name_from hwmon (ascii "name") ++ ascii "/" ++ label_of hwmon (ascii "temp") input)
              input.path)
          (indexed_inputs board floats k hwmon.path (ascii "temp"))

    unfoldable pub collect_temperatures : Collected TemperatureReading
    collect_temperatures =
        both
          (for_each thermal_zone
            (glob_paths board floats k (ascii "/sys/class/thermal") (ascii "thermal_zone")))
          (for_each hwmon_temperatures
            (glob_paths board floats k (ascii "/sys/class/hwmon") (ascii "hwmon")))

    -- The inputs of one kind: the reading that a value makes of a name.
    unfoldable pub hwmon_inputs :
        Entry → Text → ℤ → Text → (Text → ℕ → RailReading) → Collected RailReading
    hwmon_inputs hwmon prefix divisor what reading =
        for_each
          (λ input.
            push what (elim (read_scaled board floats k input.path (floats.of_i32 divisor)) [
              | ok value ↦ ok (
                  reading
                    (name_from hwmon (ascii "name") ++ ascii "/" ++ label_of hwmon prefix input)
                    value)
              | err e ↦ err e
            ]))
          (indexed_inputs board floats k hwmon.path prefix)

    abbrev hwmon_rail : Text → Option ℕ → Option ℕ → Option ℕ → RailReading
    hwmon_rail name voltage_v current_a power_w = record {
      name = name;
      voltage_v = voltage_v;
      current_a = current_a;
      power_w = power_w;
      status = some (ascii "hwmon");
    }

    unfoldable pub hwmon_rails : Entry → Collected RailReading
    hwmon_rails hwmon =
        both
          (hwmon_inputs hwmon (ascii "in") thousand (ascii "hwmon voltage read failed: ")
            (λ name v. hwmon_rail name (some v) none none))
          (both
            (hwmon_inputs hwmon (ascii "curr") thousand (ascii "hwmon current read failed: ")
              (λ name v. hwmon_rail name none (some v) none))
            (hwmon_inputs hwmon (ascii "power") million (ascii "hwmon power read failed: ")
              (λ name v. hwmon_rail name none none (some v))))

  unfoldable pub read_pmbus_regulator : PmbusRegulator → Action K Text (ℕ × ℕ)
  read_pmbus_regulator regulator = do
    device ← wrap_err i2c_error_text (open_device board.kernel pmbus_bus regulator.address)
    wrap_err i2c_error_text (set_pec board.kernel device true)
    raw_voltage ← wrap_err i2c_error_text (read_word_data board.kernel device pmbus_read_vout)
    raw_current ← wrap_err i2c_error_text (read_word_data board.kernel device pmbus_read_iout)
    pure (decode_linear16 floats raw_voltage (ℤ.negsuc 8), decode_linear11 floats raw_current)

  -- The rail of a regulator, or its error.
  unfoldable pub regulator_rail : PmbusRegulator → Result Text (ℕ × ℕ) → Collected RailReading
  regulator_rail regulator r =
      push (ascii "PMBus regulator " ++ regulator.name ++ ascii " current read failed: ") (elim r [
        | err e ↦ err e
        | ok (voltage_v, current_a) ↦ ok (record {
          name = ascii "pmbus/" ++ regulator.name;
          voltage_v = some voltage_v;
          current_a = some current_a;
          power_w = some (floats.mul voltage_v current_a);
          status = some (
              ascii "/dev/i2c-"
              ++ decimal pmbus_bus
              ++ ascii " addr 0x"
              ++ upper_hex_wide regulator.address);
        })
      ])

  unfoldable pub regulator_rails : List PmbusRegulator → K → K × Collected RailReading
  regulator_rails [] k = (k, ([], []))
  regulator_rails (regulator ∷ regulators) k =
      let (k', r) = read_pmbus_regulator regulator k in
      let (k'', rest) = regulator_rails regulators k' in
      (k'', both (regulator_rail regulator r) rest)

  unfoldable pub collect_pmbus_regulator_rails : K → K × Collected RailReading
  collect_pmbus_regulator_rails = regulator_rails pmbus_regulators

  unfoldable pub collect_rails : K → K × Collected RailReading
  collect_rails k =
      let rails =
        for_each (hwmon_rails k)
          (glob_paths board floats k (ascii "/sys/class/hwmon") (ascii "hwmon")) in
      let (k', regulators) = collect_pmbus_regulator_rails k in (k', both rails regulators)
