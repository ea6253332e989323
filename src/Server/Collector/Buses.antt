-- ===== src/Server/Collector/Buses.antt =====
-- The I2C buses and their devices in crates/daphne-sc-server/src/status_collector.rs. A `BTreeMap` is the list
-- of its values in the order of the keys, which are the bus numbers.
use daphne_sc.Prelude.{ℕ, List, [], ◌∷◌, ◌++◌, map, Bool, true, ◌&&◌, ◌||◌, ◌==◌, ltb, leb}
use daphne_sc.Prelude.{Option, none, some, if◌then◌else◌}
use daphne_sc.Text.{Text, ascii, decimal, upper_hex_u8, hex_u16}
use daphne_sc.Text.Strings.{text_eq, split_once, strip_prefix}
use daphne_sc.Text.Parse.{parse_unsigned}
use daphne_sc.Board.{Board}
use daphne_sc.I2c.{i2c_dev_path, i2c_bus_candidates}
use daphne_sc.Server.Status.{I2cBusStatus, I2cDeviceStatus, unwrap_or}
use daphne_sc.Server.Preflight.{PreflightCheck, PreflightStatus}
use daphne_sc.Server.Collector.Floats.{Floats}
use daphne_sc.Server.Collector.Sysfs.{read_trimmed, sort_by}

abbrev pub new_bus : ℕ → I2cBusStatus
new_bus bus = record { bus = bus; path = i2c_dev_path bus; devices = [] }

-- `entry(bus).or_insert_with(..)`, and a change of the devices there.
unfoldable pub on_bus :
    ℕ → (List I2cDeviceStatus → List I2cDeviceStatus) → List I2cBusStatus → List I2cBusStatus
on_bus bus change [] = record (new_bus bus) { devices = change [] } ∷ []
on_bus bus change (entry ∷ entries) =
    if bus == entry.bus
    then record entry { devices = change entry.devices } ∷ entries
    else if ltb bus entry.bus
    then record (new_bus bus) { devices = change [] } ∷ entry ∷ entries
    else entry ∷ on_bus bus change entries

-- The map of the candidates, inserted one by one.
unfoldable pub candidate_map : List ℕ → List I2cBusStatus → List I2cBusStatus
candidate_map [] entries = entries
candidate_map (bus ∷ buses) entries = candidate_map buses (on_bus bus (λ devices. devices) entries)

unfoldable pub upsert_i2c_device : List I2cDeviceStatus → I2cDeviceStatus → List I2cDeviceStatus
upsert_i2c_device [] device = device ∷ []
upsert_i2c_device (existing ∷ devices) device =
    if existing.address == device.address
    then device ∷ devices
    else existing ∷ upsert_i2c_device devices device

-- The bytes before the first that is no digit.
unfoldable pub take_digits : Text → Text
take_digits [] = []
take_digits (b ∷ bs) =
    let rest = take_digits bs in if leb 0x30 b && leb b 0x39 then b ∷ rest else []

-- What follows the first `i2c-` in a text.
unfoldable pub after_i2c : Text → Option Text
after_i2c [] = none
after_i2c (b ∷ bs) =
    let rest = after_i2c bs in
    elim (strip_prefix (ascii "i2c-") (b ∷ bs)) [ some after ↦ some after | none ↦ rest ]

unfoldable pub parse_i2c_bus_from_detail : Text → Option ℕ
unfolding after_i2c take_digits
parse_i2c_bus_from_detail detail = elim (after_i2c detail) [
  | none ↦ none
  | some rest ↦ parse_unsigned 10 0xff (take_digits rest)
]

-- `find` of the passed check of the clock chip
unfoldable pub chip_check : List PreflightCheck → Option PreflightCheck
chip_check [] = none
chip_check (check ∷ checks) =
    let rest = chip_check checks in
    if text_eq check.name (ascii "clockchip_i2c") && check.ok then some check else rest

unfoldable pub clockchip_detail : PreflightStatus → Option (ℕ × Text)
unfolding chip_check
clockchip_detail preflight = elim (chip_check preflight.checks) [
  | none ↦ none
  | some check ↦ elim (parse_i2c_bus_from_detail check.detail) [
    | none ↦ none
    | some bus ↦ some (bus, check.detail)
  ]
]

-- A name `<bus>-<address>` in /sys/bus/i2c/devices.
unfoldable pub device_of_name : Text → Option (ℕ × ℕ)
device_of_name name = elim (split_once 0x2d name) [
  | none ↦ none
  | some (bus, addr) ↦ elim (parse_unsigned 10 0xff bus) [
    | none ↦ none
    | some bus ↦ elim (parse_unsigned 16 0xff addr) [
      | none ↦ none
      | some address ↦ some (bus, address)
    ]
  ]
]

-- A `BTreeSet` of buses and addresses, in their order.
unfoldable pub insert_device : ℕ × ℕ → List (ℕ × ℕ) → List (ℕ × ℕ)
insert_device p [] = p ∷ []
insert_device (bus, address) ((b, a) ∷ rest) =
    if bus == b && address == a
    then (b, a) ∷ rest
    else if ltb bus b || (bus == b && ltb address a)
    then (bus, address) ∷ (b, a) ∷ rest
    else (b, a) ∷ insert_device (bus, address) rest

unfoldable pub devices_of_names : List Text → List (ℕ × ℕ)
unfolding device_of_name insert_device
devices_of_names [] = []
devices_of_names (name ∷ names) =
    let rest = devices_of_names names in
    elim (device_of_name name) [ none ↦ rest | some device ↦ insert_device device rest ]

abbrev pub by_address : I2cDeviceStatus → I2cDeviceStatus → Bool
by_address a b = leb a.address b.address

abbrev clockchip_device : Text → I2cDeviceStatus
clockchip_device detail = record {
  address = 0x70;
  name = ascii "clockchip";
  present = true;
  status = some detail;
}

unfoldable pub with_clockchip : Option (ℕ × Text) → List I2cBusStatus → List I2cBusStatus
with_clockchip none buses = buses
with_clockchip (some (bus, detail)) buses =
    on_bus bus (λ devices. upsert_i2c_device devices (clockchip_device detail)) buses

abbrev pub sorted_bus : I2cBusStatus → I2cBusStatus
sorted_bus bus = record bus { devices = sort_by by_address bus.devices }

module _ {K F : Type 0} (board : Board K F) (floats : Floats) (k : K) where
  unfoldable pub sysfs_i2c_devices : List (ℕ × ℕ)
  sysfs_i2c_devices = elim (board.read_dir (ascii "/sys/bus/i2c/devices") k) [
    | none ↦ []
    | some names ↦ devices_of_names names
  ]

  unfoldable pub sysfs_i2c_device_name : ℕ → ℕ → Option Text
  sysfs_i2c_device_name bus address = read_trimmed board floats k (
      ascii "/sys/bus/i2c/devices/" ++ decimal bus ++ ascii "-" ++ hex_u16 address ++ ascii "/name")

  abbrev pub registered : ℕ → ℕ → I2cDeviceStatus
  registered bus address = record {
    address = address;
    name = unwrap_or (sysfs_i2c_device_name bus address) (ascii "0x" ++ upper_hex_u8 address);
    present = true;
    status = some (ascii "registered");
  }

  unfoldable pub with_devices : List (ℕ × ℕ) → List I2cBusStatus → List I2cBusStatus
  with_devices [] buses = buses
  with_devices ((bus, address) ∷ rest) buses =
      with_devices rest (on_bus bus (λ devices. devices ++ registered bus address ∷ []) buses)

  unfoldable pub collect_i2c_status : PreflightStatus → List I2cBusStatus
  collect_i2c_status preflight =
      let candidates = candidate_map (i2c_bus_candidates board.kernel none k) [] in
      let registered = with_devices sysfs_i2c_devices candidates in
      map sorted_bus (with_clockchip (clockchip_detail preflight) registered)
