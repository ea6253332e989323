-- ===== src/I2c.antt =====
-- Access to devices on the I2C buses, crates/daphne-sc-server/src/i2c.rs, over the kernel, which is a
-- parameter. An error of the kernel is given by its text.
pub mod Candidates
pub mod Discovery
pub mod Chip
use daphne_sc.Prelude.{ℕ, List, [], ◌∷◌, ◌++◌, map, Bool, true, false, leb, get_or}
use daphne_sc.Prelude.{Option, none, some, Result, ok, err, if◌then◌else◌}
use daphne_sc.Prelude.Actions.{Action, ◌>>=◌, ◌>>◌, pure, fail, wrap_err}
use daphne_sc.Text.{Text, ascii, decimal, upper_hex_u8, upper_hex_wide}
use daphne_sc.Text.Strings.{strip_prefix, join}
use daphne_sc.Text.Parse.{parse_unsigned}
use daphne_sc.ClockChip.Program.{ClockChipBus}

abbrev pub i2c_slave : ℕ
i2c_slave = 0x0703

abbrev pub i2c_pec : ℕ
i2c_pec = 0x0708

-- The calls of the kernel on a state `K` with file handles `F`.
pub record I2cKernel (K F : Type 0) : Type 0 where
  pub open_node : Text → Action K Text F
  pub ioctl : F → ℕ → ℕ → Action K Text (Unit {0})
  pub smbus_read_word : F → ℕ → Action K Text ℕ  -- `I2C_SMBUS` with the word read and a register
  pub write_all : F → List ℕ → Action K Text (Unit {0})
  pub read_exact : F → ℕ → Action K Text (List ℕ)
  pub sleep : ℕ → K → K  -- in milliseconds
  pub dev_names : K → Option (List Text)  -- the UTF-8 names in /dev, `none` where it cannot be read

pub record LinuxI2cDevice (F : Type 0) : Type 0 where
  pub file : F
  pub bus : ℕ  -- u8
  pub address : ℕ  -- u16

pub data LinuxI2cError : Type 0 where
  open_failed : Text → Text → LinuxI2cError
  select_slave : ℕ → ℕ → Text → LinuxI2cError
  pec : ℕ → ℕ → Text → LinuxI2cError
  read : ℕ → ℕ → ℕ → Text → LinuxI2cError
  write : ℕ → ℕ → ℕ → Text → LinuxI2cError
  no_candidate_bus : ℕ → List ℕ → LinuxI2cError

-- `{list:?}` of a list of numbers
unfoldable pub debug_list : List ℕ → Text
debug_list numbers = ascii "[" ++ join (ascii ", ") (map decimal numbers) ++ ascii "]"

-- `Display`
unfoldable pub i2c_error_text : LinuxI2cError → Text
i2c_error_text (LinuxI2cError.open_failed path source) =
    ascii "could not open " ++ path ++ ascii ": " ++ source
i2c_error_text (LinuxI2cError.select_slave bus address source) =
    ascii "could not select I2C slave 0x"
    ++ upper_hex_wide address
    ++ ascii " on bus "
    ++ decimal bus
    ++ ascii ": "
    ++ source
i2c_error_text (LinuxI2cError.pec bus address source) =
    ascii "could not set PEC for I2C slave 0x"
    ++ upper_hex_wide address
    ++ ascii " on bus "
    ++ decimal bus
    ++ ascii ": "
    ++ source
i2c_error_text (LinuxI2cError.read bus address register source) =
    ascii "I2C read failed on bus "
    ++ decimal bus
    ++ ascii " addr 0x"
    ++ upper_hex_wide address
    ++ ascii " reg 0x"
    ++ upper_hex_u8 register
    ++ ascii ": "
    ++ source
i2c_error_text (LinuxI2cError.write bus address register source) =
    ascii "I2C write failed on bus "
    ++ decimal bus
    ++ ascii " addr 0x"
    ++ upper_hex_wide address
    ++ ascii " reg 0x"
    ++ upper_hex_u8 register
    ++ ascii ": "
    ++ source
i2c_error_text (LinuxI2cError.no_candidate_bus address attempted) =
    ascii "could not find I2C bus for addr 0x"
    ++ upper_hex_wide address
    ++ ascii "; attempted "
    ++ debug_list attempted

unfoldable pub i2c_dev_path : ℕ → Text
i2c_dev_path bus = ascii "/dev/i2c-" ++ decimal bus

-- `filter_map(|name| name.strip_prefix("i2c-").and_then(|bus| bus.parse().ok()))`, on u8
unfoldable pub bus_of_name : Text → Option ℕ
bus_of_name name = elim (strip_prefix (ascii "i2c-") name) [
  | none ↦ none
  | some bus ↦ parse_unsigned 10 0xff bus
]

unfoldable pub buses_of_names : List Text → List ℕ
buses_of_names [] = []
buses_of_names (name ∷ names) =
    let rest = buses_of_names names in
    elim (bus_of_name name) [ none ↦ rest | some bus ↦ bus ∷ rest ]

-- `sort_unstable`; the order of equal numbers cannot be seen.
unfoldable pub insert_sorted : ℕ → List ℕ → List ℕ
insert_sorted n [] = n ∷ []
insert_sorted n (m ∷ ms) = if leb n m then n ∷ m ∷ ms else m ∷ insert_sorted n ms

unfoldable pub sort_unstable : List ℕ → List ℕ
unfolding insert_sorted
sort_unstable [] = []
sort_unstable (n ∷ ns) = insert_sorted n (sort_unstable ns)

module _ {K F : Type 0} (kernel : I2cKernel K F) where
  unfoldable pub open_device : ℕ → ℕ → Action K LinuxI2cError (LinuxI2cDevice F)
  open_device bus address = do
    file ←
        wrap_err (LinuxI2cError.open_failed (i2c_dev_path bus))
          (kernel.open_node (i2c_dev_path bus))
    wrap_err (LinuxI2cError.select_slave bus address) (kernel.ioctl file i2c_slave address)
    pure (record { file = file; bus = bus; address = address })

  unfoldable pub set_pec : LinuxI2cDevice F → Bool → Action K LinuxI2cError (Unit {0})
  set_pec device enabled =
      wrap_err (LinuxI2cError.pec device.bus device.address)
        (kernel.ioctl device.file i2c_pec (if enabled then 1 else 0))

  unfoldable pub read_word_data : LinuxI2cDevice F → ℕ → Action K LinuxI2cError ℕ
  read_word_data device register =
      wrap_err (LinuxI2cError.read device.bus device.address register)
        (kernel.smbus_read_word device.file register)

  unfoldable pub write_register : LinuxI2cDevice F → ℕ → ℕ → Action K LinuxI2cError (Unit {0})
  write_register device register value =
      wrap_err (LinuxI2cError.write device.bus device.address register)
        (kernel.write_all device.file (register ∷ value ∷ []))

  unfoldable pub read_register : LinuxI2cDevice F → ℕ → Action K LinuxI2cError ℕ
  read_register device register = do
    wrap_err (LinuxI2cError.write device.bus device.address register)
        (kernel.write_all device.file (register ∷ []))
    bytes ←
        wrap_err (LinuxI2cError.read device.bus device.address register)
          (kernel.read_exact device.file 1)
    pure (get_or bytes 0 0)

  -- `impl ClockChipBus for LinuxI2cDevice`
  abbrev pub device_bus : LinuxI2cDevice F → ClockChipBus K LinuxI2cError
  device_bus device = record {
    write_register = write_register device;
    read_register = read_register device;
    reset_delay = kernel.sleep 20;
  }

  unfoldable pub i2c_bus_candidates : Option ℕ → K → List ℕ
  i2c_bus_candidates (some bus) k = bus ∷ []
  i2c_bus_candidates none k = elim (kernel.dev_names k) [
    | none ↦ []
    | some names ↦ sort_unstable (buses_of_names names)
  ]

  -- One round of the loop: the device on the bus if it opens and answers.
  unfoldable pub responsive : ℕ → ℕ → ℕ → K → K × Option (LinuxI2cDevice F)
  responsive bus address probe_register k =
      let (k', r) = open_device bus address k in
      elim r [
        | err _ ↦ (k', none)
        | ok device ↦
            let (k'', answer) = read_register device probe_register k' in
            (k'', elim answer [ ok _ ↦ some device | err _ ↦ none ])
      ]

  -- The loop over the candidates; `attempted` holds the buses tried before.
  unfoldable pub try_buses : List ℕ → List ℕ → ℕ → ℕ → Action K LinuxI2cError (LinuxI2cDevice F)
  try_buses [] attempted address probe_register k =
      (k, err (LinuxI2cError.no_candidate_bus address attempted))
  try_buses (bus ∷ buses) attempted address probe_register k =
      let (k', found) = responsive bus address probe_register k in
      elim found [
        | some device ↦ (k', ok device)
        | none ↦ try_buses buses (attempted ++ bus ∷ []) address probe_register k'
      ]

  unfoldable pub open_on_first_responsive_bus :
      Option ℕ → ℕ → ℕ → Action K LinuxI2cError (LinuxI2cDevice F)
  open_on_first_responsive_bus configured address probe_register k =
      try_buses (i2c_bus_candidates configured k) [] address probe_register k
