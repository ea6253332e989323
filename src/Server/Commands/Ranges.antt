-- ===== src/Server/Commands/Ranges.antt =====
-- The ranges of the commands that crates/daphne-sc-server/src/handlers.rs makes of a request.
use daphne_sc.Server.Commands.{
  u8_value, u16_value, afe_id, channel_id, make_read_register, make_write_register,
  make_set_attenuation, make_set_bias, make_set_trim, make_set_offset, make_set_vbias_control,
  make_write_function, afe_config, channel_config, collect_ok, configure_command,
}
use daphne_sc.Prelude.{
  ℕ, ◌<◌, ◌≡◌, ap, sym, ◌∙◌, subst, arith, List, [], ◌∷◌, All, Bool, Result, ok, err, map_err,
}
use daphne_sc.Prelude.{dec_le, >>=-eq-ok, ok-injective, ◌>>=◌}
use daphne_sc.Bytes.{IsByte}
use daphne_sc.Afe.{ChannelTarget, from_board, new_channel, afe_count, channel_count}
use daphne_sc.Afe.Ids.{IsAfe, IsChannel, from_board_total, from_board_err, new_channel_lem}
use daphne_sc.Afe.InRange.{InRange, IsTarget, IsU16, IsAfeConfig, IsChannelConfig}
use daphne_sc.Text.{Text, validation_error_text}
use daphne_sc.Server.Messages.{PbAfeConfig, PbChannelConfig, ConfigureRequest}

-- What the result is where there is one.
pub record OkIs {E A : Type 0} (P : A → Type 0) (r : Result E A) : Type 0 where
  pub apply : (a : A) → r ≡ ok a → P a

pub bind-OkIs :
    {E A B : Type 0} {P : A → Type 0} {Q : B → Type 0} {r : Result E A} {f : A → Result E B}
    → OkIs P r
    → ((a : A) → P a → OkIs Q (f a))
    → OkIs Q (r >>= f)
bind-OkIs {r = r} {f = f} p q = record {
  apply = λ b h. let (a, k, l) = >>=-eq-ok r f h in (q a (p.apply a k)).apply b l;
}

pub ok-OkIs : {E A : Type 0} {P : A → Type 0} {a : A} → P a → OkIs {E = E} P (ok a)
ok-OkIs {P = P} p = record { apply = λ b h. subst P (ok-injective h) p }

map_err-OkIs :
    {E F A : Type 0} {P : A → Type 0} (f : E → F) (r : Result E A) → OkIs P r → OkIs P (map_err f r)
map_err-OkIs f (ok a) p = record { apply = λ b h. p.apply b (ap ok (ok-injective h)) }
map_err-OkIs f (err e) p = record { apply = λ b h. absurd (grind (arith, h)) }

u8_value-OkIs : (name : Text) (v : ℕ) → OkIs (λ w. w < 256) (u8_value name v)
unfolding u8_value
u8_value-OkIs name v = record { apply = λ w h. ground (arith, h) }

u16_value-OkIs : (name : Text) (v : ℕ) → OkIs IsU16 (u16_value name v)
unfolding u16_value
u16_value-OkIs name v = record { apply = λ w h. ground (arith, h) }

pub from_board-OkIs : (b : ℕ) → OkIs IsAfe (from_board b)
from_board-OkIs b = record {
  apply = λ a h. elim (dec_le afe_count b) [
    | yes high ↦ absurd (grind (arith, h, from_board_err b high))
    | no over ↦
        let (a', e, on, valid) = from_board_total b (omega (arith, over)) in
        subst IsAfe (ok-injective (sym e ∙ h)) valid
  ];
}

new_channel-OkIs : (n : ℕ) → OkIs IsChannel (new_channel n)
new_channel-OkIs n = record {
  apply = λ ch h. elim (dec_le channel_count n) [
    | yes high ↦ absurd (grind (arith, h, (new_channel_lem n).1 high))
    | no over ↦
        let (c, e, on, valid) = (new_channel_lem n).0 (omega (arith, over)) in
        subst IsChannel (ok-injective (sym e ∙ h)) valid
  ];
}

pub afe_id-OkIs : (v : ℕ) → OkIs IsAfe (afe_id v)
unfolding afe_id
afe_id-OkIs v =
    bind-OkIs (u8_value-OkIs _ v) λ b h. map_err-OkIs validation_error_text _ (from_board-OkIs b)

pub channel_id-OkIs : (v : ℕ) → OkIs IsChannel (channel_id v)
unfolding channel_id
channel_id-OkIs v =
    bind-OkIs (u8_value-OkIs _ v) λ b h. map_err-OkIs validation_error_text _ (new_channel-OkIs b)

pub make_write_register-OkIs :
    (afe register value : ℕ) → OkIs InRange (make_write_register afe register value)
unfolding make_write_register
make_write_register-OkIs afe register value = bind-OkIs (afe_id-OkIs afe) λ a ha.
    bind-OkIs (u8_value-OkIs _ register)
      λ r hr. bind-OkIs (u16_value-OkIs _ value) λ v hv. ok-OkIs (ha, hr, hv)

pub make_read_register-OkIs : (afe register : ℕ) → OkIs InRange (make_read_register afe register)
unfolding make_read_register
make_read_register-OkIs afe register =
    bind-OkIs (afe_id-OkIs afe)
      λ a ha. bind-OkIs (u8_value-OkIs _ register) λ r hr. ok-OkIs (ha, hr)

pub make_set_attenuation-OkIs : (afe value : ℕ) → OkIs InRange (make_set_attenuation afe value)
unfolding make_set_attenuation
make_set_attenuation-OkIs afe value =
    bind-OkIs (afe_id-OkIs afe) λ a ha. bind-OkIs (u16_value-OkIs _ value) λ v hv. ok-OkIs (ha, hv)

pub make_set_bias-OkIs : (afe value : ℕ) → OkIs InRange (make_set_bias afe value)
unfolding make_set_bias
make_set_bias-OkIs afe value =
    bind-OkIs (afe_id-OkIs afe) λ a ha. bind-OkIs (u16_value-OkIs _ value) λ v hv. ok-OkIs (ha, hv)

pub make_set_trim-OkIs :
    (target : ChannelTarget) (value : ℕ) (gain : Bool)
    → IsTarget target
    → OkIs InRange (make_set_trim target value gain)
unfolding make_set_trim
make_set_trim-OkIs target value gain h = bind-OkIs (u16_value-OkIs _ value) λ v hv. ok-OkIs (h, hv)

pub make_set_offset-OkIs :
    (target : ChannelTarget) (value : ℕ) (gain : Bool)
    → IsTarget target
    → OkIs InRange (make_set_offset target value gain)
unfolding make_set_offset
make_set_offset-OkIs target value gain h =
    bind-OkIs (u16_value-OkIs _ value) λ v hv. ok-OkIs (h, hv)

pub make_set_vbias_control-OkIs :
    (value : ℕ) (enable : Bool) → OkIs InRange (make_set_vbias_control value enable)
unfolding make_set_vbias_control
make_set_vbias_control-OkIs value enable = bind-OkIs (u16_value-OkIs _ value) λ v hv. ok-OkIs hv

pub make_write_function-OkIs :
    (afe : ℕ) (name : Text) (value : ℕ)
    → All IsByte name
    → OkIs InRange (make_write_function afe name value)
unfolding make_write_function
make_write_function-OkIs afe name value bytes =
    bind-OkIs (afe_id-OkIs afe)
      λ a ha. bind-OkIs (u16_value-OkIs _ value) λ v hv. ok-OkIs (ha, bytes, hv)

afe_config-OkIs : (config : PbAfeConfig) → OkIs IsAfeConfig (afe_config config)
unfolding afe_config
afe_config-OkIs config = bind-OkIs (afe_id-OkIs config.id) λ a ha.
    bind-OkIs (u16_value-OkIs _ config.attenuators) λ attenuation h1.
      bind-OkIs (u16_value-OkIs _ config.v_bias) λ bias h2. bind-OkIs (u8_value-OkIs _ _) λ lpf h3.
        bind-OkIs (u8_value-OkIs _ _) λ clamp h4. bind-OkIs (u8_value-OkIs _ _) λ gain h5.
          ok-OkIs (record {
            afe = ha;
            attenuation_lt = h1;
            bias_lt = h2;
            lpf_lt = h3;
            clamp_lt = h4;
            gain_lt = h5;
          })

channel_config-OkIs : (config : PbChannelConfig) → OkIs IsChannelConfig (channel_config config)
unfolding channel_config
channel_config-OkIs config = bind-OkIs (channel_id-OkIs config.id) λ ch hc.
    bind-OkIs (u16_value-OkIs _ config.trim) λ trim h1.
      bind-OkIs (u16_value-OkIs _ config.offset) λ offset h2.
        bind-OkIs (u16_value-OkIs _ config.gain)
          λ gain h3. ok-OkIs (record { channel = hc; trim_lt = h1; offset_lt = h2; gain_lt = h3 })

collect_ok-OkIs :
    {A B : Type 0} {P : B → Type 0} (f : A → Result Text B)
    → ((x : A) → OkIs P (f x))
    → (xs : List A) → OkIs (All P) (collect_ok f xs)
unfolding collect_ok
collect_ok-OkIs f h [] = ok-OkIs tt
collect_ok-OkIs f h (x ∷ xs) =
    bind-OkIs (h x) λ y hy. bind-OkIs (collect_ok-OkIs f h xs) λ ys hys. ok-OkIs (hy, hys)

pub configure_command-OkIs : (req : ConfigureRequest) → OkIs InRange (configure_command req)
unfolding configure_command
configure_command-OkIs req =
    bind-OkIs (collect_ok-OkIs afe_config afe_config-OkIs req.afes) λ afes ha.
      bind-OkIs (collect_ok-OkIs channel_config channel_config-OkIs req.channels)
        λ channels hc. bind-OkIs (u16_value-OkIs _ req.biasctrl) λ bias hb. ok-OkIs (ha, hc, hb)
