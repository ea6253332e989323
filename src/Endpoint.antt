-- ===== src/Endpoint.antt =====
-- The registers of the timing endpoint, crates/daphne-sc-server/src/endpoint.rs, read through /dev/mem,
-- which is a parameter.
pub mod Pages
use daphne_sc.Prelude.{ℕ, ◌+◌, ◌-◌, ◌*◌, ◌^◌, bit_and, ◌++◌, Bool, not, ◌==◌}
use daphne_sc.Prelude.{Result, ok, map_err, ◌>>=◌, ◌>>◌}
use daphne_sc.Text.{Text, ascii, upper_hex_u32}

abbrev pub ep_base : ℕ
ep_base = 0x84000000

abbrev pub ep_clk_ctrl : ℕ
ep_clk_ctrl = ep_base

abbrev pub ep_clk_stat : ℕ
ep_clk_stat = ep_base + 0x4

abbrev pub ep_stat : ℕ
ep_stat = ep_base + 0xc

pub record EndpointRegisterStatus : Type 0 where
  pub clock_control : ℕ
  pub clock_status : ℕ
  pub endpoint_status : ℕ

unfoldable pub bit_set : ℕ → ℕ → Bool
bit_set value bit = not (bit_and value (2 ^ bit) == 0)

unfoldable pub endpoint_clock_source : EndpointRegisterStatus → Bool
endpoint_clock_source status = bit_set status.clock_control 2

unfoldable pub mmcm0_locked : EndpointRegisterStatus → Bool
mmcm0_locked status = bit_set status.clock_status 0

unfoldable pub mmcm1_locked : EndpointRegisterStatus → Bool
mmcm1_locked status = bit_set status.clock_status 1

unfoldable pub endpoint_state : EndpointRegisterStatus → ℕ
endpoint_state status = bit_and status.endpoint_status 0xf

unfoldable pub timestamp_ok : EndpointRegisterStatus → Bool
timestamp_ok status = bit_set status.endpoint_status 4

-- What the calls on /dev/mem give; a mapping gives the byte at each offset.
pub record DevMem (K : Type 0) : Type 0 where
  pub open_mem : K → Result Text (Unit {0})
  pub sysconf_page_size : K → Result Text ℕ  -- an error where the value is not positive
  pub mmap : K → ℕ → ℕ → Result Text (ℕ → ℕ)  -- the length and the offset
  pub munmap : K → Result Text (Unit {0})

-- `u32::from_le_bytes` of the four bytes at an offset
unfoldable pub read_le_u32 : (ℕ → ℕ) → ℕ → ℕ
read_le_u32 byte offset =
    byte offset
    + byte (offset + 1) * 2 ^ 8
    + byte (offset + 2) * 2 ^ 16
    + byte (offset + 3) * 2 ^ 24

-- `address & !(page_size - 1)` on u64
unfoldable pub page_base : ℕ → ℕ → ℕ
page_base size address = bit_and address (2 ^ 64 - 1 - (size - 1))

module _ {K : Type 0} (memory : DevMem K) where
  -- A positive value fits a u64.
  unfoldable pub page_size : K → Result Text ℕ
  page_size k = map_err (λ e. ascii "sysconf(_SC_PAGESIZE): " ++ e) (memory.sysconf_page_size k)

  -- A `usize` holds every u64 on the board.
  unfoldable pub read_phys_u32 : ℕ → K → Result Text ℕ
  read_phys_u32 address k = do
    map_err (λ e. ascii "/dev/mem: " ++ e) (memory.open_mem k)
    size ← page_size k
    let base = page_base size address
    mapping ←
        map_err (λ e. ascii "mmap 0x" ++ upper_hex_u32 base ++ ascii ": " ++ e)
          (memory.mmap k size base)
    map_err (λ e. ascii "munmap: " ++ e) (memory.munmap k)
    ok (read_le_u32 mapping (address - base))

  unfoldable pub read_endpoint_register_status : K → Result Text EndpointRegisterStatus
  read_endpoint_register_status k = do
    clock_control ← read_phys_u32 ep_clk_ctrl k
    clock_status ← read_phys_u32 ep_clk_stat k
    endpoint_status ← read_phys_u32 ep_stat k
    ok (record {
      clock_control = clock_control;
      clock_status = clock_status;
      endpoint_status = endpoint_status;
    })
