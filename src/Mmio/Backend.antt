-- ===== src/Mmio/Backend.antt =====
-- The state and the errors of the MMIO backend, crates/daphne-sc-rpu/src/mmio.rs: the trait
-- `RegisterIo`, `AfeMmioBackend` and `StagedConfig`.
use daphne_sc.Prelude.{ℕ, ◌%◌, ◌^◌, List, [], ◌∷◌, Bool, true, false, Option, none, some, replicate}
use daphne_sc.Prelude.{Result, ok, err, ◌==◌, ◌&&◌, ltb, leb, if◌then◌else◌, suc}
use daphne_sc.Afe.{afe_count, channels_per_afe, channel_count}
use daphne_sc.Wire.Payload.{RpuWireConfigCounts, RpuWireAfeConfig, RpuWireChannelConfig}

-- `trait RegisterIo`; `I` is the state behind the registers, `E` its `Error`.
pub record RegisterIo (I E : Type 0) : Type 0 where
  pub read32 : I → ℕ → I × Result E ℕ
  pub write32 : I → ℕ → ℕ → I × Result E (Unit {0})

pub data MmioAfeError (E : Type 0) : Type 0 where
  io : E → MmioAfeError E
  invalid_afe : ℕ → MmioAfeError E
  invalid_channel : ℕ → MmioAfeError E
  invalid_value : ℕ → MmioAfeError E
  invalid_function : MmioAfeError E
  invalid_function_field : MmioAfeError E
  alignment_failed : MmioAfeError E
  timeout : MmioAfeError E
  unsupported : MmioAfeError E

pub record StagedConfig : Type 0 where
  pub active : Bool
  pub counts : RpuWireConfigCounts
  pub afes : List (Option RpuWireAfeConfig)
  pub channels : List (Option RpuWireChannelConfig)

-- `StagedConfig::new`
unfoldable pub new_staged : RpuWireConfigCounts → StagedConfig
new_staged counts = record {
  active = true;
  counts = counts;
  afes = replicate afe_count none;
  channels = replicate channel_count none;
}

-- `StagedConfig::default`
unfoldable pub no_staged : StagedConfig
no_staged = record {
  active = false;
  counts = record { afe_count = 0; channel_count = 0; bias_control = 0 };
  afes = replicate afe_count none;
  channels = replicate channel_count none;
}

-- `iter().flatten()`
abbrev pub present {ℓ} : {A : Type ℓ} → List (Option A) → List A
present [] = []
present (none ∷ xs) = present xs
present (some x ∷ xs) = x ∷ present xs

-- `iter().flatten().count()`
abbrev pub count_present {ℓ} : {A : Type ℓ} → List (Option A) → ℕ
count_present [] = 0
count_present (none ∷ xs) = count_present xs
count_present (some x ∷ xs) = suc (count_present xs)

unfoldable pub received_afes : StagedConfig → ℕ
received_afes s = count_present s.afes % 2 ^ 16

unfoldable pub received_channels : StagedConfig → ℕ
received_channels s = count_present s.channels % 2 ^ 16

unfoldable pub validate_counts : {E : Type 0} → StagedConfig → Result (MmioAfeError E) (Unit {0})
unfolding received_afes received_channels
validate_counts s =
    if received_afes s == s.counts.afe_count && received_channels s == s.counts.channel_count
    then ok tt
    else err MmioAfeError.unsupported

pub record AfeMmioBackend (I : Type 0) : Type 0 where
  pub bus : I
  pub spin_limit : ℕ  -- u32
  pub attenuation : List ℕ  -- [u16; 5]
  pub bias : List ℕ  -- [u16; 5]
  pub trim_halves : List (List ℕ)  -- [[u16; 8]; 5]
  pub offset_halves : List (List ℕ)  -- [[u16; 8]; 5]
  pub vbias_control : ℕ  -- u16
  pub vbias_enabled : Bool
  pub staged_config : StagedConfig

abbrev pub default_spin_limit : ℕ
default_spin_limit = 100000

-- `AfeMmioBackend::with_config`
unfoldable pub with_config : {I : Type 0} → I → ℕ → AfeMmioBackend I
unfolding no_staged
with_config bus spin_limit = record {
  bus = bus;
  spin_limit = spin_limit;
  attenuation = replicate afe_count 0;
  bias = replicate afe_count 0;
  trim_halves = replicate afe_count (replicate channels_per_afe 0);
  offset_halves = replicate afe_count (replicate channels_per_afe 0);
  vbias_control = 0;
  vbias_enabled = false;
  staged_config = no_staged;
}

-- A method on `&mut self` that may fail: what was changed before the failure stays changed.
abbrev pub M : Type 0 → Type 0 → Type 0 → Type 0
M I E A = AfeMmioBackend I → AfeMmioBackend I × Result (MmioAfeError E) A

module _ {I E : Type 0} where
  infixl 5 ◌>>=◌ ◌>>◌
  abbrev pub ◌>>=◌ : {A B : Type 0} → M I E A → (A → M I E B) → M I E B
  ◌>>=◌ m f b = let (b', r) = m b in elim r [ ok a ↦ f a b' | err e ↦ (b', err e) ]

  abbrev pub ◌>>◌ : {B : Type 0} → M I E (Unit {0}) → M I E B → M I E B
  ◌>>◌ m k b = let (b', r) = m b in elim r [ ok a ↦ k b' | err e ↦ (b', err e) ]

  abbrev pub pure : {A : Type 0} → A → M I E A
  pure a b = (b, ok a)

  abbrev pub raise : {A : Type 0} → MmioAfeError E → M I E A
  raise e b = (b, err e)

  -- `?` on a result that leaves the backend alone.
  abbrev pub lift : {A : Type 0} → Result (MmioAfeError E) A → M I E A
  lift r b = (b, r)

  abbrev pub gets : {A : Type 0} → (AfeMmioBackend I → A) → M I E A
  gets f b = (b, ok (f b))

  abbrev pub modify : (AfeMmioBackend I → AfeMmioBackend I) → M I E (Unit {0})
  modify f b = (f b, ok tt)

  -- `for i in first..first + n`
  abbrev pub for_each : ℕ → ℕ → (ℕ → M I E (Unit {0})) → M I E (Unit {0})
  for_each first ℕ.zero body = pure tt
  for_each first (suc n) body = body first >> for_each (suc first) n body

unfoldable pub validate_afe : {E : Type 0} → ℕ → Result (MmioAfeError E) (Unit {0})
validate_afe afe_pl = if ltb afe_pl afe_count then ok tt else err (MmioAfeError.invalid_afe afe_pl)

unfoldable pub require_u16 : {E : Type 0} → ℕ → Result (MmioAfeError E) ℕ
require_u16 value = if ltb value (2 ^ 16) then ok value else err (MmioAfeError.invalid_value value)

unfoldable pub require_12bit : {E : Type 0} → ℕ → Result (MmioAfeError E) ℕ
require_12bit value =
    if leb value 0x0FFF then ok (value % 2 ^ 16) else err (MmioAfeError.invalid_value value)
