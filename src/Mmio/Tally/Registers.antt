-- ===== src/Mmio/Tally/Registers.antt =====
-- How many register accesses the methods of the register level make, of crates/daphne-sc-rpu/src/mmio.rs.
use daphne_sc.Prelude.{ℕ, ◌+◌, ◌*◌, ◌≡◌, subst, arith, Bool}
use daphne_sc.Prelude.{List, ok_or, map_err}
use daphne_sc.AfeHw.{DacRoute, afe_control_offset}
use daphne_sc.AfeFunctions.{validate_afe_function_value, mask}
use daphne_sc.Mmio.Backend.{RegisterIo, MmioAfeError, AfeMmioBackend, validate_afe, require_u16}
use daphne_sc.Mmio.Access.{poll, wait_afe_ready, wait_dac_ready, wait_frontend_delayctrl_ready}
use daphne_sc.Mmio.Access.{set_bit, trigger_dac, write_dac_route}
use daphne_sc.Mmio.Spi.{
  read_back, read_register, write_register, write_afe_function, function_error,
}
use daphne_sc.Mmio.Tally.{
  Tally, Within, >>=-Within, >>-Within, lift-Within, pure-Within, less-Within, read-Within,
  write-Within, poll-Within,
}

module _ {I E : Type 0} {io : RegisterIo I E} {Q : ℕ → AfeMmioBackend I → AfeMmioBackend I → Type 0}
    (t : Tally io Q) (limit : ℕ) where
  at_limit :
      (b : AfeMmioBackend I) (offset : ℕ) (done : ℕ → Bool)
      → b.spin_limit ≡ limit
      → Q limit b (poll io b.spin_limit offset done b).0
  at_limit b offset done e =
      subst (λ (n : ℕ). Q n b (poll io b.spin_limit offset done b).0) e
        ((poll-Within t limit b.spin_limit offset done).apply b e)

  pub wait_afe_ready-Within : Within t limit limit (wait_afe_ready io)
  unfolding wait_afe_ready
  wait_afe_ready-Within = record { apply = λ b e. at_limit b _ _ e }

  pub wait_dac_ready-Within : Within t limit limit (wait_dac_ready io)
  unfolding wait_dac_ready
  wait_dac_ready-Within = record { apply = λ b e. at_limit b _ _ e }

  pub wait_frontend_delayctrl_ready-Within : Within t limit limit (wait_frontend_delayctrl_ready io)
  unfolding wait_frontend_delayctrl_ready
  wait_frontend_delayctrl_ready-Within = record { apply = λ b e. at_limit b _ _ e }

  pub set_bit-Within :
      (offset i : ℕ) (asserted : Bool) → Within t limit 2 (set_bit io offset i asserted)
  unfolding set_bit
  set_bit-Within offset i asserted =
      >>=-Within t limit (read-Within t limit offset) (λ value. write-Within t limit offset _)

  pub trigger_dac-Within : Within t limit (3 * limit + 4) (trigger_dac io)
  unfolding trigger_dac
  trigger_dac-Within = less-Within t limit (omega arith) (
      >>-Within t limit wait_dac_ready-Within (
        >>-Within t limit (set_bit-Within _ _ _) (
          >>-Within t limit wait_dac_ready-Within
            (>>-Within t limit (set_bit-Within _ _ _) wait_dac_ready-Within))))

  pub write_dac_route-Within :
      (route : DacRoute) (value : ℕ)
      → Within t limit (4 * limit + 5) (write_dac_route io route value)
  unfolding write_dac_route
  write_dac_route-Within route value = less-Within t limit (omega arith) (
      >>-Within t limit wait_dac_ready-Within
        (>>-Within t limit (write-Within t limit _ _) trigger_dac-Within))

  pub read_back-Within :
      (offset register : ℕ) → Within t limit (2 * limit + 4) (read_back io offset register)
  read_back-Within offset register = less-Within t limit (omega arith) (
      >>-Within t limit (write-Within t limit _ _) (
        >>-Within t limit wait_afe_ready-Within (
          >>-Within t limit (write-Within t limit _ _) (
            >>-Within t limit wait_afe_ready-Within (
              >>=-Within t limit (read-Within t limit offset)
                (λ value. >>-Within t limit (write-Within t limit _ _) (pure-Within t limit _)))))))

  pub read_register-Within :
      (afe_pl register : ℕ) → Within t limit (3 * limit + 4) (read_register io afe_pl register)
  unfolding read_register
  read_register-Within afe_pl register = less-Within t limit (omega arith) (
      >>=-Within t limit (lift-Within t limit _)
        (λ offset. >>-Within t limit wait_afe_ready-Within (read_back-Within offset register)))

  pub write_register-Within :
      (afe_pl register value : ℕ)
      → Within t limit (4 * limit + 5) (write_register io afe_pl register value)
  unfolding write_register
  write_register-Within afe_pl register value = less-Within t limit (omega arith) (
      >>=-Within t limit (lift-Within t limit (require_u16 value)) (λ v.
        >>=-Within t limit
          (lift-Within t limit
            (ok_or (afe_control_offset afe_pl) (MmioAfeError.invalid_afe afe_pl)))
          (λ offset. >>-Within t limit wait_afe_ready-Within (
            >>-Within t limit (write-Within t limit _ _)
              (>>-Within t limit wait_afe_ready-Within (read_back-Within offset register))))))

  pub write_afe_function-Within :
      (afe_pl : ℕ) (name : List ℕ) (value : ℕ)
      → Within t limit (10 * limit + 13) (write_afe_function io afe_pl name value)
  unfolding write_afe_function
  write_afe_function-Within afe_pl name value = less-Within t limit (omega arith) (
      >>-Within t limit (lift-Within t limit (validate_afe afe_pl)) (
        >>=-Within t limit
          (lift-Within t limit
            (map_err (λ e. function_error e value) (validate_afe_function_value name value)))
          (λ spec.
            >>=-Within t limit
              (lift-Within t limit (map_err (λ e. function_error e value) (mask spec.field)))
              (λ m. >>=-Within t limit (read_register-Within afe_pl spec.field.register) (λ current.
                >>=-Within t limit (lift-Within t limit _) (λ updated.
                  >>=-Within t limit (write_register-Within afe_pl spec.field.register updated)
                    (λ written.
                      >>=-Within t limit (read_register-Within afe_pl spec.field.register)
                        (λ readback. lift-Within t limit _))))))))
