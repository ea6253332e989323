-- ===== src/Server/Collector/Registered.antt =====
-- The devices that the names in /sys/bus/i2c/devices stand for, in crates/daphne-sc-server/src/status_collector.rs.
use mathlib.Core.List.{Memᴰ}
use mathlib.Core.List.Memᴰ
use daphne_sc.Prelude.{
  ℕ, ◌≡◌, ◌↔◌, ◌⊎◌, inl, inr, refl, sym, subst, List, [], ◌∷◌, ◌==◌, ◌&&◌, ◌||◌, ltb, Bool-cases,
  Option, none, some, Option-cases, arith,
}
use daphne_sc.Prelude.Iff.{trans_iff, sym_iff, or_iff, or_nothing}
use daphne_sc.Text.{Text, ascii}
use daphne_sc.Text.Strings.{split_once}
use daphne_sc.Text.Parse.{parse_unsigned}
use daphne_sc.Board.{Board}
use daphne_sc.Server.Collector.Floats.{Floats}
use daphne_sc.Server.Collector.Buses.{
  device_of_name, insert_device, devices_of_names, sysfs_i2c_devices,
}

module _ (b a : ℕ) where
  abbrev pub Paired : List (ℕ × ℕ) → Type 0
  Paired [] = ⊥
  Paired ((bus, address) ∷ devices) = ((bus ≡ b) × (address ≡ a)) ⊎ Paired devices

  -- A name before whose first `-` (0x2d) the bus stands in decimal, and the address after it in
  -- hexadecimal digits, each a u8.
  abbrev Names : Text → Type 0
  Names name =
      (bus : Text) × (address : Text) × (split_once 0x2d name ≡ some (bus, address))
      × (parse_unsigned 10 0xff bus ≡ some b)
      × (parse_unsigned 16 0xff address ≡ some a)

  -- A name of the directory tells the bus and the address.
  abbrev pub Registered : Option (List Text) → Type 0
  Registered none = ⊥
  Registered (some names) = (name : Text) × Memᴰ name names × Names name

  insert_device-Paired :
      (bus address : ℕ) (devices : List (ℕ × ℕ))
      → Paired (insert_device (bus, address) devices) ↔ Paired ((bus, address) ∷ devices)
  unfolding insert_device
  insert_device-Paired bus address [] = (λ h. h, λ h. h)
  insert_device-Paired bus address ((c, d) ∷ devices) =
      elim (Bool-cases (bus == c && address == d)) [
        | inl same ↦ rw same (ground (arith, same))
        | inr differs ↦ elim (Bool-cases (ltb bus c || (bus == c && ltb address d))) [
          | inl before ↦ rw (differs, before) (λ h. h, λ h. h)
          | inr after ↦
              rw (differs, after) (ground (arith, insert_device-Paired bus address devices))
        ]
      ]

  -- The bus and the address are those that are found.
  abbrev Found : Option (ℕ × ℕ) → Type 0
  Found none = ⊥
  Found (some (bus, address)) = (bus ≡ b) × (address ≡ a)

  device_of_name-Found : (name : Text) → Found (device_of_name name) ↔ Names name
  unfolding device_of_name
  device_of_name-Found name = elim (Option-cases (split_once 0x2d name)) [
    | inl whole ↦ rw (whole, device_of_name) (ground (arith, whole))
    | inr ((bus, address), split) ↦ elim (Option-cases (parse_unsigned 10 0xff bus)) [
      | inl bad ↦ rw (split, bad, device_of_name) (ground (arith, split, bad))
      | inr (x, is_x) ↦ elim (Option-cases (parse_unsigned 16 0xff address)) [
        | inl bad ↦ rw (split, is_x, bad, device_of_name) (ground (arith, split, is_x, bad))
        | inr (y, is_y) ↦
            rw (split, is_x, is_y, device_of_name)
              (
                λ h. (bus, address, refl, cc, cc),
                λ h. let (bus', address', split', is_b, is_a) = h in ground arith,
              )
      ]
    ]
  ]

  Registered-cons :
      (name : Text) (names : List Text)
      → Registered (some (name ∷ names)) ↔ (Names name ⊎ Registered (some names))
  Registered-cons name names = (
    λ h.
        let (other, there, is) = h in
        elim (Memᴰ.cases_cons there) [
          | inl same ↦ inl (subst Names same is)
          | inr later ↦ inr (other, later, is)
        ],
    λ h. elim h [
      | inl is ↦ (name, Memᴰ.head refl, is)
      | inr later ↦ let (other, there, is) = later in (other, Memᴰ.tail there, is)
    ],
  )

  skipped :
      (name : Text) (names : List Text)
      → device_of_name name ≡ none
      → devices_of_names (name ∷ names) ≡ devices_of_names names
  unfolding devices_of_names
  skipped name names e = rw (e, devices_of_names) refl

  counted :
      (name : Text) (device : ℕ × ℕ) (names : List Text)
      → device_of_name name ≡ some device
      → devices_of_names (name ∷ names) ≡ insert_device device (devices_of_names names)
  unfolding devices_of_names
  counted name device names e = rw (e, devices_of_names) refl

  devices_of_names-Paired :
      (names : List Text) → Paired (devices_of_names names) ↔ Registered (some names)
  unfolding devices_of_names
  devices_of_names-Paired [] = (λ h. absurd h, λ h. let (name, there, is) = h in Memᴰ.not-nil there)
  devices_of_names-Paired (name ∷ names) =
      let rest = devices_of_names-Paired names in
      let step = Registered-cons name names in
      let found = device_of_name-Found name in
      elim (Option-cases (device_of_name name)) [
        | inl other ↦
            let nothing : Found none ↔ Names name = subst (λ o. Found o ↔ Names name) other found in
            subst (λ l. Paired l ↔ Registered (some (name ∷ names)))
              (sym (skipped name names other))
              (trans_iff rest (trans_iff (or_nothing (λ is. nothing.1 is)) (sym_iff step)))
        | inr ((bus, address), e) ↦
            let here : Found (some (bus, address)) ↔ Names name =
              subst (λ o. Found o ↔ Names name) e found in
            subst (λ l. Paired l ↔ Registered (some (name ∷ names)))
              (sym (counted name (bus, address) names e))
              (trans_iff (insert_device-Paired bus address (devices_of_names names))
                (trans_iff (or_iff here rest) (sym_iff step)))
      ]

  pub sysfs-Paired :
      {K F : Type 0} (board : Board K F) (floats : Floats) (k : K)
      → Paired (sysfs_i2c_devices board floats k)
        ↔ Registered (board.read_dir (ascii "/sys/bus/i2c/devices") k)
  unfolding sysfs_i2c_devices
  sysfs-Paired board floats k =
      elim (Option-cases (board.read_dir (ascii "/sys/bus/i2c/devices") k)) [
        | inl unread ↦ rw (unread, sysfs_i2c_devices) (λ h. h, λ h. h)
        | inr (names, read) ↦ rw (read, sysfs_i2c_devices) (devices_of_names-Paired names)
      ]
