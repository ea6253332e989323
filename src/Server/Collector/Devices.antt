-- ===== src/Server/Collector/Devices.antt =====
-- The I2C devices that crates/daphne-sc-server/src/status_collector.rs reports.
use daphne_sc.Prelude.{
  ℕ, ◌≡◌, ◌↔◌, ◌⊎◌, inl, inr, refl, List, [], ◌∷◌, ◌++◌, map, true, ◌==◌, ◌&&◌, leb, ltb, Bool,
  false, Bool-cases, Option, none, some, Option-cases, arith,
}
use daphne_sc.Prelude.Iff.{trans_iff, or_iff, nothing_or}
use daphne_sc.Text.{Text, ascii}
use daphne_sc.Text.Strings.{text_eq}
use daphne_sc.Board.{Board}
use daphne_sc.I2c.{i2c_bus_candidates}
use daphne_sc.Server.Status.{I2cBusStatus, I2cDeviceStatus}
use daphne_sc.Server.Preflight.{PreflightCheck, PreflightStatus}
use daphne_sc.Server.Collector.Floats.{Floats}
use daphne_sc.Server.Collector.Sysfs.{insert_by, sort_by}
use daphne_sc.Server.Collector.Registered.{Paired, Registered, sysfs-Paired}
use daphne_sc.Server.Collector.Buses.{
  on_bus, candidate_map, by_address, with_clockchip, clockchip_detail, chip_check,
  parse_i2c_bus_from_detail, sorted_bus, upsert_i2c_device, sysfs_i2c_devices, with_devices,
  registered, collect_i2c_status,
}

module _ (b a : ℕ) where
  -- A device with the address `a` is there and present.
  abbrev pub At : List I2cDeviceStatus → Type 0
  At [] = ⊥
  At (device ∷ devices) = ((device.address ≡ a) × (device.present ≡ true)) ⊎ At devices

  -- Such a device is there on the bus `b`.
  abbrev pub Listed : List I2cBusStatus → Type 0
  Listed [] = ⊥
  Listed (entry ∷ entries) = ((entry.bus ≡ b) × At entry.devices) ⊎ Listed entries

  module _ (bus : ℕ) (change : List I2cDeviceStatus → List I2cDeviceStatus) (Q : Type 0) where
    on_bus-Listed :
        ((devices : List I2cDeviceStatus) → At (change devices) ↔ (Q ⊎ At devices))
        → (entries : List I2cBusStatus)
        → Listed (on_bus bus change entries) ↔ (((bus ≡ b) × Q) ⊎ Listed entries)
    unfolding on_bus
    on_bus-Listed changed [] = ground (arith, changed [])
    on_bus-Listed changed (entry ∷ entries) = elim (Bool-cases (bus == entry.bus)) [
      | inl same ↦ rw same (ground (arith, changed entry.devices, same))
      | inr differs ↦ elim (Bool-cases (ltb bus entry.bus)) [
        | inl before ↦ rw (differs, before) (ground (arith, changed []))
        | inr after ↦ rw (differs, after) (ground (arith, on_bus-Listed changed entries))
      ]
    ]

  candidate_map-Listed :
      (buses : List ℕ) (entries : List I2cBusStatus)
      → Listed (candidate_map buses entries) ↔ Listed entries
  unfolding candidate_map
  candidate_map-Listed [] entries = (λ h. h, λ h. h)
  candidate_map-Listed (bus ∷ buses) entries =
      let rest = candidate_map-Listed buses (on_bus bus (λ devices. devices) entries) in
      let step = on_bus-Listed bus (λ devices. devices) ⊥ (λ devices. ground arith) entries in
      ground (arith, rest, step)

  append-At :
      (device : I2cDeviceStatus) (devices : List I2cDeviceStatus)
      → device.present ≡ true
      → At (devices ++ device ∷ []) ↔ ((device.address ≡ a) ⊎ At devices)
  append-At device [] here = ground arith
  append-At device (other ∷ devices) here = ground (arith, append-At device devices here)

  upsert-At :
      (device : I2cDeviceStatus) (devices : List I2cDeviceStatus)
      → device.present ≡ true
      → At (upsert_i2c_device devices device) ↔ ((device.address ≡ a) ⊎ At devices)
  unfolding upsert_i2c_device
  upsert-At device [] here = ground arith
  upsert-At device (other ∷ devices) here = elim (Bool-cases (other.address == device.address)) [
    | inl same ↦ rw same (ground (arith, same))
    | inr differs ↦ rw differs (ground (arith, upsert-At device devices here))
  ]

  insert-At :
      (device : I2cDeviceStatus) (devices : List I2cDeviceStatus)
      → At (insert_by by_address device devices) ↔ At (device ∷ devices)
  unfolding insert_by
  insert-At device [] = (λ h. h, λ h. h)
  insert-At device (other ∷ devices) = elim (Bool-cases (leb device.address other.address)) [
    | inl first ↦ rw first (λ h. h, λ h. h)
    | inr later ↦ rw later (ground (arith, insert-At device devices))
  ]

  sort-At : (devices : List I2cDeviceStatus) → At (sort_by by_address devices) ↔ At devices
  unfolding sort_by
  sort-At [] = (λ h. h, λ h. h)
  sort-At (device ∷ devices) =
      ground (arith, sort-At devices, insert-At device (sort_by by_address devices))

  sort_devices-Listed :
      (entries : List I2cBusStatus) → Listed (map sorted_bus entries) ↔ Listed entries
  sort_devices-Listed [] = (λ h. h, λ h. h)
  sort_devices-Listed (entry ∷ entries) =
      ground (arith, sort-At entry.devices, sort_devices-Listed entries)

  with_devices-Listed :
      {K F : Type 0} (board : Board K F) (floats : Floats) (k : K) (devices : List (ℕ × ℕ))
      (entries : List I2cBusStatus)
      → Listed (with_devices board floats k devices entries) ↔ (Paired b a devices ⊎ Listed entries)
  unfolding with_devices
  with_devices-Listed board floats k [] entries = (λ h. inr h, λ h. ground arith)
  with_devices-Listed board floats k ((bus, address) ∷ devices) entries =
      let new = registered board floats k bus address in
      let rest =
        with_devices-Listed board floats k devices
          (on_bus bus (λ listed. listed ++ new ∷ []) entries) in
      let step =
        on_bus-Listed bus (λ listed. listed ++ new ∷ []) (address ≡ a)
          (λ listed. append-At new listed refl) entries in
      ground (arith, rest, step)

  -- The clock chip is at the address 0x70 on the bus of the detail.
  abbrev Chip : Option (ℕ × Text) → Type 0
  Chip none = ⊥
  Chip (some (bus, detail)) = (bus ≡ b) × (0x70 ≡ a)

  with_clockchip-Listed :
      (chip : Option (ℕ × Text)) (entries : List I2cBusStatus)
      → Listed (with_clockchip chip entries) ↔ (Chip chip ⊎ Listed entries)
  unfolding with_clockchip
  with_clockchip-Listed none entries = (λ h. inr h, λ h. ground arith)
  with_clockchip-Listed (some (bus, detail)) entries =
      on_bus-Listed bus _ (0x70 ≡ a) (λ listed. upsert-At _ listed refl) entries

  abbrev is_chip : PreflightCheck → Bool
  is_chip check = text_eq check.name (ascii "clockchip_i2c") && check.ok

  -- The first passed check of the clock chip names the bus `b`, and the address is 0x70.
  abbrev pub ChipFound : List PreflightCheck → Type 0
  ChipFound [] = ⊥
  ChipFound (check ∷ checks) =
      ((is_chip check ≡ true) × (parse_i2c_bus_from_detail check.detail ≡ some b) × (0x70 ≡ a))
      ⊎ ((is_chip check ≡ false) × ChipFound checks)

  abbrev Detailed : Option PreflightCheck → Type 0
  Detailed none = ⊥
  Detailed (some check) = (parse_i2c_bus_from_detail check.detail ≡ some b) × (0x70 ≡ a)

  chip_check-Detailed :
      (checks : List PreflightCheck) → Detailed (chip_check checks) ↔ ChipFound checks
  unfolding chip_check
  chip_check-Detailed [] = (λ h. h, λ h. h)
  chip_check-Detailed (check ∷ checks) = elim (Bool-cases (is_chip check)) [
    | inl chip ↦ rw (chip, chip_check) (ground (arith, chip))
    | inr other ↦ rw (other, chip_check) (ground (arith, chip_check-Detailed checks, other))
  ]

  detail-Detailed :
      (preflight : PreflightStatus)
      → Chip (clockchip_detail preflight) ↔ Detailed (chip_check preflight.checks)
  unfolding clockchip_detail
  detail-Detailed preflight = elim (Option-cases (chip_check preflight.checks)) [
    | inl missing ↦ rw (missing, clockchip_detail) (λ h. h, λ h. h)
    | inr (check, found) ↦ elim (Option-cases (parse_i2c_bus_from_detail check.detail)) [
      | inl unnamed ↦ rw (found, unnamed, clockchip_detail) (ground (arith, unnamed))
      | inr (bus, named) ↦ rw (found, named, clockchip_detail) (ground (arith, named))
    ]
  ]

  -- `collect_i2c_status` lists a device as present at an address of a bus exactly where a name in
  -- /sys/bus/i2c/devices tells this bus, in decimal before the first `-`, and this address, in hexadecimal
  -- after it, each a u8, or where the detail of the first passed check of the clock chip names this bus and the
  -- address is 0x70.
  pub collect_i2c_status_lem :
      {K F : Type 0} (board : Board K F) (floats : Floats) (k : K) (preflight : PreflightStatus)
      → Listed (collect_i2c_status board floats k preflight) ↔ (
          ChipFound preflight.checks
          ⊎ Registered b a (board.read_dir (ascii "/sys/bus/i2c/devices") k))
  unfolding collect_i2c_status
  collect_i2c_status_lem board floats k preflight =
      let buses = i2c_bus_candidates board.kernel none k in
      let candidates = candidate_map buses [] in
      let devices = sysfs_i2c_devices board floats k in
      let reported = with_devices board floats k devices candidates in
      let chip = clockchip_detail preflight in
      trans_iff (sort_devices-Listed (with_clockchip chip reported)) (
        trans_iff (with_clockchip-Listed chip reported) (
          or_iff (trans_iff (detail-Detailed preflight) (chip_check-Detailed preflight.checks)) (
            trans_iff (with_devices-Listed board floats k devices candidates) (
              trans_iff (nothing_or (λ h. (candidate_map-Listed buses []).0 h))
                (sysfs-Paired b a board floats k)))))
