-- ===== src/I2c/Discovery.antt =====
-- The search for a device in crates/daphne-sc-server/src/i2c.rs.
use daphne_sc.Prelude.{
  ℕ, ◌≡◌, refl, sym, subst, ap, List, [], ◌∷◌, ◌++◌, append_assoc, append-nil, Option, none, some,
  Result, ok, err, arith,
}
use daphne_sc.Text.{Text, ascii, decimal}
use daphne_sc.I2c.Candidates.{Candidates, candidates_lem}
use daphne_sc.I2c.{
  I2cKernel, LinuxI2cDevice, LinuxI2cError, responsive, try_buses, open_device, read_register,
  i2c_dev_path, i2c_bus_candidates, open_on_first_responsive_bus,
}

module _ {K F : Type 0} (kernel : I2cKernel K F) (address probe_register : ℕ) where
  -- The calls by which a chip at the address on a bus answers, from the state before them to the one after: the
  -- node of the bus is opened, `I2C_SLAVE` = 0x0703 selects the address, the number of the register is
  -- written and a byte is read.
  pub record Answers (bus : ℕ) (k k' : K) (file : F) : Type 0 where
    pub at_open : K
    pub at_select : K
    pub at_write : K
    pub bytes : List ℕ
    pub opens : kernel.open_node (ascii "/dev/i2c-" ++ decimal bus) k ≡ (at_open, ok file)
    pub selects : kernel.ioctl file 0x0703 address at_open ≡ (at_select, ok tt)
    pub writes : kernel.write_all file (probe_register ∷ []) at_select ≡ (at_write, ok tt)
    pub reads : kernel.read_exact file 1 at_write ≡ (k', ok bytes)

  -- The same calls up to the one that fails.
  pub data Fails (bus : ℕ) (k k' : K) : Type 0 where
    no_node :
        {e : Text}
        → kernel.open_node (ascii "/dev/i2c-" ++ decimal bus) k ≡ (k', err e)
        → Fails bus k k'
    not_selected :
        {k1 : K} {file : F} {e : Text}
        → kernel.open_node (ascii "/dev/i2c-" ++ decimal bus) k ≡ (k1, ok file)
        → kernel.ioctl file 0x0703 address k1 ≡ (k', err e)
        → Fails bus k k'
    not_written :
        {k1 k2 : K} {file : F} {e : Text}
        → kernel.open_node (ascii "/dev/i2c-" ++ decimal bus) k ≡ (k1, ok file)
        → kernel.ioctl file 0x0703 address k1 ≡ (k2, ok tt)
        → kernel.write_all file (probe_register ∷ []) k2 ≡ (k', err e)
        → Fails bus k k'
    not_read :
        {k1 k2 k3 : K} {file : F} {e : Text}
        → kernel.open_node (ascii "/dev/i2c-" ++ decimal bus) k ≡ (k1, ok file)
        → kernel.ioctl file 0x0703 address k1 ≡ (k2, ok tt)
        → kernel.write_all file (probe_register ∷ []) k2 ≡ (k3, ok tt)
        → kernel.read_exact file 1 k3 ≡ (k', err e)
        → Fails bus k k'

  -- Each of the buses is tried in turn, and no chip answers.
  pub data Silent : K → List ℕ → K → Type 0 where
    no_bus : {k : K} → Silent k [] k
    next_bus :
        {k k' k'' : K} {bus : ℕ} {buses : List ℕ}
        → Fails bus k k'
        → Silent k' buses k''
        → Silent k (bus ∷ buses) k''

  -- The device is on the first bus on which the chip answers, with the file that was opened for it.
  pub record FirstOn (k : K) (buses : List ℕ) (k' : K) (device : LinuxI2cDevice F) : Type 0 where
    pub before : List ℕ
    pub after : List ℕ
    pub found_at : K
    pub listed : buses ≡ before ++ device.bus ∷ after
    pub silent : Silent k before found_at
    pub answers : Answers device.bus found_at k' device.file
    pub addressed : device.address ≡ address

  -- What a round of the search shows.
  abbrev Round : ℕ → K → K × Option (LinuxI2cDevice F) → Type 0
  Round bus k (k', none) = Fails bus k k'
  Round bus k (k', some device) =
      (device.bus ≡ bus) × (device.address ≡ address) × Answers bus k k' device.file

  module _ (bus : ℕ) (k : K) where
    abbrev Probe : K × Option (LinuxI2cDevice F)
    Probe = responsive kernel bus address probe_register k

    step_read :
        (k1 k2 k3 : K) (file : F)
        → kernel.open_node (i2c_dev_path bus) k ≡ (k1, ok file)
        → kernel.ioctl file 0x0703 address k1 ≡ (k2, ok tt)
        → kernel.write_all file (probe_register ∷ []) k2 ≡ (k3, ok tt)
        → (p : K × Result Text (List ℕ)) → kernel.read_exact file 1 k3 ≡ p
        → Round bus k Probe
    unfolding i2c_dev_path responsive open_device read_register
    step_read k1 k2 k3 file opens selects writes (k', err e) reads =
        subst (Round bus k) (sym missed) (not_read opens selects writes reads)
      where
        missed : Probe ≡ (k', none)
        missed = ground arith
    step_read k1 k2 k3 file opens selects writes (k', ok bytes) reads =
        subst (Round bus k) (sym found) (
          refl,
          refl,
          record {
            at_open = k1;
            at_select = k2;
            at_write = k3;
            bytes = bytes;
            opens = opens;
            selects = selects;
            writes = writes;
            reads = reads;
          },
        )
      where
        found : Probe ≡ (k', some (record { file = file; bus = bus; address = address }))
        found = ground arith

    step_write :
        (k1 k2 : K) (file : F)
        → kernel.open_node (i2c_dev_path bus) k ≡ (k1, ok file)
        → kernel.ioctl file 0x0703 address k1 ≡ (k2, ok tt)
        → (p : K × Result Text (Unit {0})) → kernel.write_all file (probe_register ∷ []) k2 ≡ p
        → Round bus k Probe
    unfolding i2c_dev_path responsive open_device read_register
    step_write k1 k2 file opens selects (k', err e) writes =
        subst (Round bus k) (sym missed) (not_written opens selects writes)
      where
        missed : Probe ≡ (k', none)
        missed = ground arith
    step_write k1 k2 file opens selects (k3, ok u) writes =
        step_read k1 k2 k3 file opens selects writes (kernel.read_exact file 1 k3) refl

    step_select :
        (k1 : K) (file : F)
        → kernel.open_node (i2c_dev_path bus) k ≡ (k1, ok file)
        → (p : K × Result Text (Unit {0})) → kernel.ioctl file 0x0703 address k1 ≡ p
        → Round bus k Probe
    unfolding i2c_dev_path responsive open_device
    step_select k1 file opens (k', err e) selects =
        subst (Round bus k) (sym missed) (not_selected opens selects)
      where
        missed : Probe ≡ (k', none)
        missed = ground arith
    step_select k1 file opens (k2, ok u) selects =
        step_write k1 k2 file opens selects (kernel.write_all file (probe_register ∷ []) k2) refl

    step_open :
        (p : K × Result Text F) → kernel.open_node (i2c_dev_path bus) k ≡ p → Round bus k Probe
    unfolding i2c_dev_path responsive open_device
    step_open (k', err e) opens = subst (Round bus k) (sym missed) (no_node opens)
      where
        missed : Probe ≡ (k', none)
        missed = ground arith
    step_open (k1, ok file) opens =
        step_select k1 file opens (kernel.ioctl file 0x0703 address k1) refl

    responsive-Round : Round bus k Probe
    responsive-Round = step_open (kernel.open_node (i2c_dev_path bus) k) refl

  -- What the search leaves: the device of the first bus on which the chip answers, or an error that lists
  -- the buses, none of which has it answer.
  abbrev pub Outcome : List ℕ → K → List ℕ → K → Result LinuxI2cError (LinuxI2cDevice F) → Type 0
  Outcome attempted k buses k' (ok device) = FirstOn k buses k' device
  Outcome attempted k buses k' (err e) =
      Silent k buses k' × (e ≡ LinuxI2cError.no_candidate_bus address (attempted ++ buses))

  later-Outcome :
      (attempted : List ℕ) (bus : ℕ) (buses : List ℕ) (k k' k'' : K)
      (r : Result LinuxI2cError (LinuxI2cDevice F))
      → Fails bus k k'
      → Outcome (attempted ++ bus ∷ []) k' buses k'' r
      → Outcome attempted k (bus ∷ buses) k'' r
  later-Outcome attempted bus buses k k' k'' (ok device) silent found = record {
    before = bus ∷ found.before;
    after = found.after;
    found_at = found.found_at;
    listed = ap (λ t. bus ∷ t) found.listed;
    silent = next_bus silent found.silent;
    answers = found.answers;
    addressed = found.addressed;
  }
  later-Outcome attempted bus buses k k' k'' (err e) silent (rest, same) =
      (next_bus silent rest, rw append_assoc at same)

  -- A round of the search, from the outcome of its probe on.
  abbrev onward :
      ℕ
      → List ℕ
      → List ℕ
      → K × Option (LinuxI2cDevice F)
      → K × Result LinuxI2cError (LinuxI2cDevice F)
  onward bus buses attempted (k', some device) = (k', ok device)
  onward bus buses attempted (k', none) =
      try_buses kernel buses (attempted ++ bus ∷ []) address probe_register k'

  try_buses_lem :
      (buses attempted : List ℕ) (k : K)
      → let (k', r) = try_buses kernel buses attempted address probe_register k in
        Outcome attempted k buses k' r
  unfolding try_buses
  try_buses_lem [] attempted k = (no_bus, rw append-nil refl)
  try_buses_lem (bus ∷ buses) attempted k =
      probed (responsive kernel bus address probe_register k) (responsive-Round bus k)
        (λ k'. try_buses_lem buses (attempted ++ bus ∷ []) k')
    where
      probed :
          (p : K × Option (LinuxI2cDevice F))
          → Round bus k p
          → ((k' : K)
              → let (k'', r) =
                  try_buses kernel buses (attempted ++ bus ∷ []) address probe_register k' in
                Outcome (attempted ++ bus ∷ []) k' buses k'' r)
          → let (k', r) = onward bus buses attempted p in Outcome attempted k (bus ∷ buses) k' r
      probed (k', none) fails rest = later-Outcome attempted bus buses k k' _ _ fails (rest k')
      probed (k', some device) (on_bus, addressed, answers) rest = record {
        before = [];
        after = buses;
        found_at = k;
        listed = ap (λ b. b ∷ buses) (sym on_bus);
        silent = no_bus;
        answers = subst (λ b. Answers b k k' device.file) (sym on_bus) answers;
        addressed = addressed;
      }

  -- `open_on_first_responsive_bus` tries the candidate buses in order: the bus that is configured alone, or else
  -- those buses that /dev has a name `i2c-<bus>` of, in ascending order, none where /dev cannot be read. It
  -- gives the device of the first of them on which the node opens, `I2C_SLAVE` selects the address, the number
  -- of the probe register can be written and a byte can be read, with the file that was opened and the
  -- address asked for; or, if on each of them one of these calls fails, the error that lists them all.
  pub open_first_lem :
      (configured : Option ℕ) (k : K)
      → let (k', r) = open_on_first_responsive_bus kernel configured address probe_register k in
        (buses : List ℕ) × Candidates configured (kernel.dev_names k) buses
        × Outcome [] k buses k' r
  unfolding open_on_first_responsive_bus
  open_first_lem configured k =
      let buses = i2c_bus_candidates kernel configured k in
      (buses, candidates_lem kernel configured k, try_buses_lem buses [] k)
