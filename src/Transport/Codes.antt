-- ===== src/Transport/Codes.antt =====
-- The numbering of the request message types, and what is routed where.
use daphne_sc.Prelude.{ℕ, ◌≡◌, refl, arith, ◌↔◌, ok, All, first_arm-All}
use daphne_sc.Prelude.{ok_or-eq-ok, Bool, true, ◌&&◌, ◌||◌, ◌≢◌, leb, ◌==◌}
use daphne_sc.Transport.{MessageTypeV2, CommandRoute, code, arms, try_from, route_message_type}

arms-code : All (λ (p : ℕ × MessageTypeV2). code p.1 ≡ p.0) arms
unfolding code
arms-code = omega arith

try_from-code : (m : MessageTypeV2) → try_from (code m) ≡ ok m
unfolding try_from code
try_from-code MessageTypeV2.configure_clks_req = refl
try_from-code _ = refl

-- A number is taken for a message type exactly when it is the discriminant of that type, so no two
-- types share a number, no type is left out of the match, and every other number is refused.
pub try_from_iff : (n : ℕ) (m : MessageTypeV2) → (try_from n ≡ ok m) ↔ (code m ≡ n)
unfolding try_from
try_from_iff n m = (
  λ h. first_arm-All code n arms m arms-code (ok_or-eq-ok _ tt m h),
  λ e. rw (← e) (try_from-code m),
)

abbrev pub is_afe_code : ℕ → Bool
is_afe_code n = leb 202 n && leb n 242 || leb 248 n && leb n 254 || n == 258 || n == 260

-- Exactly the message types numbered 202 to 242, 248 to 254, 258 and 260 are routed to the RPU, and no
-- message type is routed as unsupported.
pub route_message_type_lem :
    (m : MessageTypeV2)
    → ((route_message_type m ≡ CommandRoute.rpu_afe) ↔ (is_afe_code (code m) ≡ true))
      × (route_message_type m ≢ CommandRoute.unsupported)
unfolding route_message_type code
route_message_type_lem MessageTypeV2.configure_clks_req = ground arith
route_message_type_lem _ = ground arith
