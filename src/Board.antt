-- ===== src/Board.antt =====
-- What the server in crates/daphne-sc-server/src asks of the operating system of the board; each is a
-- parameter. `K` is the state of the system, `F` a file handle, and an error is given by its text.
use daphne_sc.Prelude.{ℕ, List, Bool, Option, Result}
use daphne_sc.Text.{Text}
use daphne_sc.I2c.{I2cKernel}
use daphne_sc.Endpoint.{DevMem}

-- The output of a command, with its streams read by `from_utf8_lossy`.
pub record CommandOutput : Type 0 where
  pub success : Bool
  pub stdout : Text
  pub stderr : Text

pub record Board (K F : Type 0) : Type 0 where
  pub kernel : I2cKernel K F
  pub memory : DevMem K
  pub read_to_string : Text → K → Result Text Text
  pub read_dir : Text → K → Option (List Text)  -- the names in a directory, in UTF-8
  pub exists : Text → K → Bool
  pub is_active : Text → K → Result Text CommandOutput  -- `systemctl is-active`
  pub remoteproc_entries : K → Result Text (List Bool)  -- whether each entry could be read
  pub env_var : Text → K → Option Text
  pub now : K → ℕ  -- the monotonic clock
