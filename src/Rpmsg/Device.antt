-- ===== src/Rpmsg/Device.antt =====
-- The state of the transport of crates/daphne-sc-server/src/rpmsg.rs, the device file it stands on, which
-- is a parameter, and the chaining of its methods.
use daphne_sc.Prelude.{ℕ, List, ◌++◌, Option, none, Result, ok, err, map_err}
use daphne_sc.Text.{Text}
use daphne_sc.Rpu.{RpuError}

-- What `poll` on the file returns: an error with its text, no event in time, or the events.
pub data PollOutcome : Type 0 where
  failed : Text → PollOutcome
  timed_out : PollOutcome
  ready : ℕ → PollOutcome

-- The operations of the device file; a text is that of the error.
pub record RpmsgFile (F : Type 0) : Type 0 where
  pub write_all : F → List ℕ → F × Result Text (Unit {0})
  pub flush : F → F × Result Text (Unit {0})
  pub poll : F → ℕ → F × PollOutcome
  pub read_exact : F → ℕ → F × Result Text (List ℕ)

pub record RpmsgAfeTransport (F : Type 0) : Type 0 where
  pub file : F
  pub next_sequence : ℕ
  pub timeout : ℕ  -- in milliseconds
  pub last_heartbeat : Option ℕ
  pub last_fault : Option Text

-- `open`, once the file is open
unfoldable pub opened : {F : Type 0} → F → ℕ → RpmsgAfeTransport F
opened file timeout = record {
  file = file;
  next_sequence = 1;
  timeout = timeout;
  last_heartbeat = none;
  last_fault = none;
}

-- A method that may fail: what was changed before the failure stays changed.
abbrev pub M : Type 0 → Type 0 → Type 0
M F A = RpmsgAfeTransport F → RpmsgAfeTransport F × Result RpuError A

module _ {F : Type 0} where
  infixl 5 ◌>>=◌ ◌>>◌
  abbrev pub ◌>>=◌ : {A B : Type 0} → M F A → (A → M F B) → M F B
  ◌>>=◌ m f t = let (t', r) = m t in elim r [ ok a ↦ f a t' | err e ↦ (t', err e) ]

  abbrev pub ◌>>◌ : {B : Type 0} → M F (Unit {0}) → M F B → M F B
  ◌>>◌ m k t = let (t', r) = m t in elim r [ ok _ ↦ k t' | err e ↦ (t', err e) ]

  abbrev pub lift : {A : Type 0} → Result RpuError A → M F A
  lift r t = (t, r)

  -- A call of the file, with the error that `map_err` makes.
  abbrev pub on_file : {A : Type 0} → Text → (F → F × Result Text A) → M F A
  on_file what call t =
      let (file, r) = call t.file in
      (record t { file = file }, map_err (λ e. RpuError.transport (what ++ e)) r)
