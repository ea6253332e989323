-- ===== src/Server/Status.antt =====
-- The status of the board: the records of crates/daphne-sc-core/src/status.rs and their conversions in
-- crates/daphne-sc-server/src/handlers.rs into the messages of proto/daphne_sc.proto, whose names have the
-- prefix Pb. An `f64` is given by its 64 bits, so that 0.0 is 0.
use daphne_sc.Prelude.{ℕ, List, [], map, Bool, false, Option, none, some}
use daphne_sc.Text.{Text}
use daphne_sc.Rpu.{RpuLinkStatus}

pub record FirmwareStatus : Type 0 where
  pub loaded : Bool
  pub fpga_manager_state : Option Text
  pub overlay_name : Option Text
  pub build_id : Option Text
  pub pl_devices_present : List Text

pub record I2cDeviceStatus : Type 0 where
  pub address : ℕ  -- u8
  pub name : Text
  pub present : Bool
  pub status : Option Text

pub record I2cBusStatus : Type 0 where
  pub bus : ℕ  -- u8
  pub path : Text
  pub devices : List I2cDeviceStatus

pub record ClockStatus : Type 0 where
  pub endpoint_clock_source_controlled : Option Bool
  pub mmcm0_locked : Option Bool
  pub mmcm1_locked : Option Bool
  pub raw_endpoint_status : Option ℕ

pub record TemperatureReading : Type 0 where
  pub name : Text
  pub celsius : ℕ  -- f64

pub record RailReading : Type 0 where
  pub name : Text
  pub voltage_v : Option ℕ  -- f64
  pub current_a : Option ℕ  -- f64
  pub power_w : Option ℕ  -- f64
  pub status : Option Text

pub record ServiceStatus : Type 0 where
  pub name : Text
  pub active : Bool
  pub state : Text

pub record SlowControlStatus : Type 0 where
  pub firmware : FirmwareStatus
  pub rpu : RpuLinkStatus
  pub i2c : List I2cBusStatus
  pub clocks : ClockStatus
  pub temperatures : List TemperatureReading
  pub rails : List RailReading
  pub services : List ServiceStatus
  pub errors : List Text

pub record PbFirmwareStatus : Type 0 where
  pub loaded : Bool
  pub fpga_manager_state : Text
  pub overlay_name : Text
  pub build_id : Text
  pub pl_devices_present : List Text

pub record PbRpuStatus : Type 0 where
  pub available : Bool
  pub running : Bool
  pub firmware : Text
  pub heartbeat : ℕ
  pub last_fault : Text

pub record PbI2cDeviceStatus : Type 0 where
  pub address : ℕ
  pub name : Text
  pub present : Bool
  pub status : Text

pub record PbI2cBusStatus : Type 0 where
  pub bus : ℕ
  pub path : Text
  pub devices : List PbI2cDeviceStatus

pub record PbClockStatus : Type 0 where
  pub endpoint_clock_source_controlled : Bool
  pub mmcm0_locked : Bool
  pub mmcm1_locked : Bool
  pub raw_endpoint_status : ℕ

pub record PbRailReading : Type 0 where
  pub name : Text
  pub voltage_v : ℕ
  pub current_a : ℕ
  pub power_w : ℕ
  pub status : Text

-- The messages of a temperature and of a service have the fields of the records themselves.
pub record SlowControlStatusResponse : Type 0 where
  pub success : Bool
  pub message : Text
  pub firmware : Option PbFirmwareStatus
  pub rpu : Option PbRpuStatus
  pub i2c : List PbI2cBusStatus
  pub clocks : Option PbClockStatus
  pub temperatures : List TemperatureReading
  pub rails : List PbRailReading
  pub services : List ServiceStatus
  pub errors : List Text

-- `unwrap_or`; `unwrap_or_default` is this with the empty text or 0.
abbrev pub unwrap_or {ℓ} : {A : Type ℓ} → Option A → A → A
unwrap_or none a = a
unwrap_or (some x) a = x

unfoldable pub firmware_status_to_pb : FirmwareStatus → PbFirmwareStatus
firmware_status_to_pb status = record {
  loaded = status.loaded;
  fpga_manager_state = unwrap_or status.fpga_manager_state [];
  overlay_name = unwrap_or status.overlay_name [];
  build_id = unwrap_or status.build_id [];
  pl_devices_present = status.pl_devices_present;
}

unfoldable pub i2c_device_to_pb : I2cDeviceStatus → PbI2cDeviceStatus
i2c_device_to_pb status = record {
  address = status.address;
  name = status.name;
  present = status.present;
  status = unwrap_or status.status [];
}

unfoldable pub i2c_bus_to_pb : I2cBusStatus → PbI2cBusStatus
i2c_bus_to_pb status = record {
  bus = status.bus;
  path = status.path;
  devices = map i2c_device_to_pb status.devices;
}

unfoldable pub clock_status_to_pb : ClockStatus → PbClockStatus
clock_status_to_pb status = record {
  endpoint_clock_source_controlled = unwrap_or status.endpoint_clock_source_controlled false;
  mmcm0_locked = unwrap_or status.mmcm0_locked false;
  mmcm1_locked = unwrap_or status.mmcm1_locked false;
  raw_endpoint_status = unwrap_or status.raw_endpoint_status 0;
}

unfoldable pub temperature_to_pb : TemperatureReading → TemperatureReading
temperature_to_pb status = record { name = status.name; celsius = status.celsius }

unfoldable pub rail_to_pb : RailReading → PbRailReading
rail_to_pb status = record {
  name = status.name;
  voltage_v = unwrap_or status.voltage_v 0;
  current_a = unwrap_or status.current_a 0;
  power_w = unwrap_or status.power_w 0;
  status = unwrap_or status.status [];
}

unfoldable pub service_to_pb : ServiceStatus → ServiceStatus
service_to_pb status = record { name = status.name; active = status.active; state = status.state }

unfoldable pub rpu_status_to_pb : RpuLinkStatus → PbRpuStatus
rpu_status_to_pb status = record {
  available = status.available;
  running = status.running;
  firmware = unwrap_or status.firmware [];
  heartbeat = unwrap_or status.heartbeat 0;
  last_fault = unwrap_or status.last_fault [];
}

unfoldable pub slow_control_status_to_pb :
    Bool → Text → SlowControlStatus → SlowControlStatusResponse
slow_control_status_to_pb success message status = record {
  success = success;
  message = message;
  firmware = some (firmware_status_to_pb status.firmware);
  rpu = some (rpu_status_to_pb status.rpu);
  i2c = map i2c_bus_to_pb status.i2c;
  clocks = some (clock_status_to_pb status.clocks);
  temperatures = map temperature_to_pb status.temperatures;
  rails = map rail_to_pb status.rails;
  services = map service_to_pb status.services;
  errors = status.errors;
}
