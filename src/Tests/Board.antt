-- ===== src/Tests/Board.antt =====
-- Some of the tests of crates/daphne-sc-server/src/preflight.rs, and the theorems on it and on i2c.rs, on a board
-- of which all checks pass; its state is the time.
use daphne_sc.Prelude.{
  ℕ, List, ◌+◌, ◌≡◌, refl, [], ◌∷◌, true, none, some, ok, err, if◌then◌else◌, ◌==◌,
}
use daphne_sc.Text.{Text, ascii}
use daphne_sc.Text.Parse.{parse_unsigned}
use daphne_sc.Text.Strings.{text_eq, strip_prefix}
use daphne_sc.Text.Trim.{trim}
use daphne_sc.Board.{Board}
use daphne_sc.I2c.{I2cKernel, open_on_first_responsive_bus}
use daphne_sc.I2c.Candidates.{Candidates}
use daphne_sc.I2c.Discovery.{Outcome, open_first_lem}
use daphne_sc.Endpoint.{DevMem}
use daphne_sc.Server.Preflight.{ready_for_hardware_commands}
use daphne_sc.Server.Preflight.Config.{parse_i2c_addr}
use daphne_sc.Server.Preflight.Checks.{collect}
use daphne_sc.Server.Preflight.Ready.{board_ready, ready_iff}
use daphne_sc.Server.Preflight.Cache.{
  LinuxPreflight, default_preflight, check, Reached, Recent, check-Recent,
}

-- parses_hex_i2c_addresses
parsed_hex : parse_i2c_addr (ascii "0x70") ≡ some 0x70
unfolding parse_i2c_addr trim parse_unsigned strip_prefix
parsed_hex = refl

parsed_decimal : parse_i2c_addr (ascii " 112 ") ≡ some 0x70
unfolding parse_i2c_addr trim parse_unsigned strip_prefix
parsed_decimal = refl

-- The buses 1 and 2, with a chip that answers on the second.
abbrev pub fake_kernel : I2cKernel ℕ Text
fake_kernel = record {
  open_node = λ path time. (time + 1, ok path);
  ioctl = λ file request value time. (time, ok tt);
  smbus_read_word = λ file register time. (time, ok 0);
  write_all = λ file bytes time.
      (time, if text_eq file (ascii "/dev/i2c-2") then ok tt else err (ascii "Remote I/O error"));
  read_exact = λ file count time. (time, ok (0x06 ∷ []));
  sleep = λ ms time. time + ms;
  dev_names = λ time. some (ascii "i2c-2" ∷ ascii "null" ∷ ascii "i2c-1" ∷ []);
}

abbrev pub fake_memory : DevMem ℕ
fake_memory = record {
  open_mem = λ time. ok tt;
  sysconf_page_size = λ time. ok 4096;
  mmap = λ time length offset. ok (λ k. if k == 4 then 3 else if k == 12 then 0x18 else 0);
  munmap = λ time. ok tt;
}

abbrev pub fake_board : Board ℕ Text
fake_board = record {
  kernel = fake_kernel;
  memory = fake_memory;
  read_to_string = λ path time.
      if text_eq path (ascii "/sys/class/fpga_manager/fpga0/state")
      then ok (ascii "operating")
      else err (ascii "No such file");
  read_dir = λ path time. none;
  exists = λ path time. true;
  is_active = λ unit time. ok (record { success = true; stdout = ascii "active"; stderr = [] });
  remoteproc_entries = λ time. ok (true ∷ []);
  env_var = λ name time. none;
  now = λ time. time;
}

ready_iff_example : ready_for_hardware_commands (collect fake_board 0).1 ≡ board_ready fake_board 0
ready_iff_example = ready_iff fake_board 0

open_first_lem_example :
    let (time, r) = open_on_first_responsive_bus fake_kernel none 0x70 0xe6 5 in
    (buses : List ℕ) × Candidates none (fake_kernel.dev_names 5) buses
    × Outcome fake_kernel 0x70 0xe6 [] 5 buses time r
open_first_lem_example = open_first_lem fake_kernel 0x70 0xe6 none 5

-- A call at the time 0 fills the cache, and one at the time 900 comes within the time to live.
abbrev filled : LinuxPreflight
filled = (check fake_board default_preflight 0).1

filled-Reached : Reached fake_board 1000 filled 900
filled-Reached = Reached.changed (Reached.checked (Reached.started {k = 0}) refl)

check-Recent_example :
    let (time, preflight, status) = check fake_board filled 900 in
    Recent fake_board 1000 filled 900 time preflight status
check-Recent_example = check-Recent fake_board filled 900 filled-Reached
