-- ===== src/Mmio/Hardware/Scalars.antt =====
-- Attenuation and bias in crates/daphne-sc-rpu/src/mmio.rs: the cached values after `write_scalar`.
use daphne_sc.Mmio.Hardware.{
  read_scalar, write_scalar, write_scalar_op, write_attenuation, write_bias, gain_route, bias_route,
  cache_attenuation, cache_bias,
}
use daphne_sc.Prelude.{
  ℕ, zero, suc, ◌%◌, ◌^◌, ◌≤◌, ◌<◌, ◌≡◌, ◌≢◌, refl, ap, ◌∙◌, arith, List, [], ◌∷◌, length, get_or,
  set, ◌⊎◌, dec_lt, dec_le, lt→ltb, le→ltb_false, le→leb, lt→leb_false,
}
use daphne_sc.Prelude.{Result, ok, err, Result-cases, inl, inr}
use daphne_sc.Afe.{afe_count}
use daphne_sc.AfeHw.{DacRoute}
use daphne_sc.Wire.Ops.{RpuWireOp}
use daphne_sc.Mmio.Backend.{
  RegisterIo, MmioAfeError, AfeMmioBackend, pure, modify, validate_afe, require_12bit,
}
use daphne_sc.Mmio.Access.{read, write, write_dac_route}
use daphne_sc.Mmio.Steps.{>>-ok, >>-err}
use daphne_sc.Mmio.Tally.{Tally}
use daphne_sc.Mmio.Tally.Registers.{write_dac_route-Within}

-- The two values of an AFE that a DAC of its own holds.
pub data Scalar : Type 0 where
  attenuation bias : Scalar

abbrev pub set_op : Scalar → RpuWireOp
set_op attenuation = RpuWireOp.set_attenuation
set_op bias = RpuWireOp.set_bias

abbrev pub read_op : Scalar → RpuWireOp
read_op attenuation = RpuWireOp.read_attenuation
read_op bias = RpuWireOp.read_bias

abbrev pub values : {I : Type 0} → Scalar → AfeMmioBackend I → List ℕ
values attenuation b = b.attenuation
values bias b = b.bias

get_or-set : (xs : List ℕ) (i v : ℕ) → i < length xs → get_or (set xs i v) i 0 ≡ v
get_or-set [] i v h = absurd (omega (arith, h))
get_or-set (x ∷ xs) zero v h = refl
get_or-set (x ∷ xs) (suc i) v h = get_or-set xs i v (omega (arith, h))

get_or-set_other : (xs : List ℕ) (i k v : ℕ) → k ≢ i → get_or (set xs i v) k 0 ≡ get_or xs k 0
get_or-set_other [] i k v h = refl
get_or-set_other (x ∷ xs) zero zero v h = absurd (h refl)
get_or-set_other (x ∷ xs) zero (suc k) v h = refl
get_or-set_other (x ∷ xs) (suc i) zero v h = refl
get_or-set_other (x ∷ xs) (suc i) (suc k) v h = get_or-set_other xs i k v (λ e. h (ap suc e))

-- Only what is behind the registers has changed.
abbrev BusOnly : {I : Type 0} → ℕ → AfeMmioBackend I → AfeMmioBackend I → Type 0
BusOnly n b c = c ≡ record b { bus = c.bus }

module _ {I E : Type 0} (io : RegisterIo I E) where
  only_bus : Tally io BusOnly
  unfolding read write
  only_bus = record {
    stay = λ b. refl;
    after = λ {b = b} {c = c} {d = d} p q.
        q ∙ ap (λ (x : AfeMmioBackend I). record x { bus = d.bus }) p;
    more = λ h p. p;
    limit = λ p. ap (λ (x : AfeMmioBackend I). x.spin_limit) p;
    reads = λ offset b. refl;
    writes = λ offset value b. refl;
  }

  route_keeps :
      (route : DacRoute) (value : ℕ) (b : AfeMmioBackend I)
      → let c = (write_dac_route io route value b).0 in c ≡ record b { bus = c.bus }
  route_keeps route value b =
      (write_dac_route-Within only_bus b.spin_limit route value).apply b refl

  abbrev result : AfeMmioBackend I × Result (MmioAfeError E) ℕ → Result (MmioAfeError E) ℕ
  result p = p.1

  abbrev left : AfeMmioBackend I × Result (MmioAfeError E) ℕ → AfeMmioBackend I
  left p = p.0

  bad_afe :
      (which : Scalar) (afe value : ℕ) (b : AfeMmioBackend I)
      → afe_count ≤ afe
      → write_scalar io (set_op which) afe value b ≡ (b, err (MmioAfeError.invalid_afe afe))
  unfolding write_scalar validate_afe
  bad_afe which afe value b h = rw (le→ltb_false _ _ h, validate_afe, write_scalar)

  bad_value :
      (which : Scalar) (afe value : ℕ) (b : AfeMmioBackend I)
      → afe < afe_count
      → 0x0FFF < value
      → write_scalar io (set_op which) afe value b ≡ (b, err (MmioAfeError.invalid_value value))
  unfolding write_scalar validate_afe require_12bit
  bad_value which afe value b h k =
      rw (lt→ltb _ _ h, validate_afe, write_scalar, lt→leb_false _ _ k, require_12bit)

  good_value :
      (which : Scalar) (afe value : ℕ) (b : AfeMmioBackend I)
      → afe < afe_count
      → value ≤ 0x0FFF
      → write_scalar io (set_op which) afe value b ≡ write_scalar_op io (set_op which) afe value b
  unfolding write_scalar validate_afe require_12bit
  good_value which afe value b h k =
      let same : value % 2 ^ 16 ≡ value = omega (arith, k) in
      rw (lt→ltb _ _ h, validate_afe, write_scalar, le→leb _ _ k, require_12bit, same)

  -- The end of `write_scalar`: an error with the cached values kept, or the value put among them.
  write_scalar_op_lem :
      (which : Scalar) (afe value : ℕ) (b : AfeMmioBackend I)
      → let r = write_scalar_op io (set_op which) afe value b in
        ((e : MmioAfeError E) × (r.1 ≡ err e) × (values which r.0 ≡ values which b))
        ⊎ ((r.1 ≡ ok value) × (values which r.0 ≡ set (values which b) afe value))
  unfolding write_scalar_op write_attenuation write_bias
  write_scalar_op_lem attenuation afe value b =
      let c = (write_dac_route io (gain_route afe) value b).0 in
      let kept =
        ap (λ (x : AfeMmioBackend I). x.attenuation) (route_keeps (gain_route afe) value b) in
      elim (Result-cases (write_dac_route io (gain_route afe) value b).1) [
        | inr (e, q) ↦
            let first =
              >>-err (write_dac_route io (gain_route afe) value)
                (modify (cache_attenuation afe value))
                (ap (λ (r : Result (MmioAfeError E) (Unit {0})). (c, r)) q) in
            let all = >>-err (write_attenuation io afe value) (pure value) first in
            inl (e, ap result all, ap (λ x. values attenuation (left x)) all ∙ kept)
        | inl (u, q) ↦
            let first =
              >>-ok (write_dac_route io (gain_route afe) value)
                (modify (cache_attenuation afe value))
                (ap (λ (r : Result (MmioAfeError E) (Unit {0})). (c, r)) q) in
            let all = >>-ok (write_attenuation io afe value) (pure value) first in
            inr (
              ap result all,
              ap (λ x. values attenuation (left x)) all ∙ ap (λ (l : List ℕ). set l afe value) kept,
            )
      ]
  write_scalar_op_lem bias afe value b =
      let c = (write_dac_route io (bias_route afe) value b).0 in
      let kept = ap (λ (x : AfeMmioBackend I). x.bias) (route_keeps (bias_route afe) value b) in
      elim (Result-cases (write_dac_route io (bias_route afe) value b).1) [
        | inr (e, q) ↦
            let first =
              >>-err (write_dac_route io (bias_route afe) value) (modify (cache_bias afe value))
                (ap (λ (r : Result (MmioAfeError E) (Unit {0})). (c, r)) q) in
            let all = >>-err (write_bias io afe value) (pure value) first in
            inl (e, ap result all, ap (λ x. values bias (left x)) all ∙ kept)
        | inl (u, q) ↦
            let first =
              >>-ok (write_dac_route io (bias_route afe) value) (modify (cache_bias afe value))
                (ap (λ (r : Result (MmioAfeError E) (Unit {0})). (c, r)) q) in
            let all = >>-ok (write_bias io afe value) (pure value) first in
            inr (
              ap result all,
              ap (λ x. values bias (left x)) all ∙ ap (λ (l : List ℕ). set l afe value) kept,
            )
      ]

  read_scalar_lem :
      (which : Scalar) (afe : ℕ) (b : AfeMmioBackend I)
      → afe < afe_count
      → (read_scalar {E = E} (read_op which) afe b).1 ≡ ok (get_or (values which b) afe 0)
  unfolding read_scalar validate_afe
  read_scalar_lem attenuation afe b h = rw (lt→ltb _ _ h, validate_afe)
  read_scalar_lem bias afe b h = rw (lt→ltb _ _ h, validate_afe)

  -- A write of an attenuation or a bias either fails and leaves the cached values as they were, or is of an AFE
  -- that exists and of a value of 12 bits: the value is then the result and what is read back afterwards,
  -- and the values of the other AFEs are as before.
  pub write_scalar_lem :
      (which : Scalar) (afe value : ℕ) (b : AfeMmioBackend I)
      → length (values which b) ≡ afe_count
      → let r = write_scalar io (set_op which) afe value b in
        ((e : MmioAfeError E) × (r.1 ≡ err e) × (values which r.0 ≡ values which b))
        ⊎ ((r.1 ≡ ok value)
            × (afe < afe_count)
            × (value ≤ 0x0FFF)
            × ((read_scalar {E = E} (read_op which) afe r.0).1 ≡ ok value)
            × ((k : ℕ) → k ≢ afe → get_or (values which r.0) k 0 ≡ get_or (values which b) k 0))
  write_scalar_lem which afe value b five = elim (dec_lt afe afe_count) [
    | no p ↦
        let e = bad_afe which afe value b (omega (arith, p)) in
        inl (MmioAfeError.invalid_afe afe, ap result e, ap (λ x. values which (left x)) e)
    | yes p ↦ elim (dec_le value 0x0FFF) [
      | no q ↦
          let e = bad_value which afe value b p (omega (arith, q)) in
          inl (MmioAfeError.invalid_value value, ap result e, ap (λ x. values which (left x)) e)
      | yes q ↦
          let same = good_value which afe value b p q in
          elim (write_scalar_op_lem which afe value b) [
            | inl (e, failed, kept) ↦
                inl (e, ap result same ∙ failed, ap (λ x. values which (left x)) same ∙ kept)
            | inr (done, stored) ↦
                let now = ap (λ x. values which (left x)) same ∙ stored in
                inr (
                  ap result same ∙ done,
                  p,
                  q,
                  read_scalar_lem which afe (write_scalar io (set_op which) afe value b).0 p
                      ∙ ap (λ (l : List ℕ). ok (get_or l afe 0)) now
                      ∙ ap ok (get_or-set (values which b) afe value (omega (arith, p, five))),
                  λ k other.
                      ap (λ (l : List ℕ). get_or l k 0) now
                      ∙ get_or-set_other (values which b) afe k value other,
                )
          ]
    ]
  ]
