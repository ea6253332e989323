-- ===== src/Tests/Transport.antt =====
-- A configuration over the transport of crates/daphne-sc-server/src/rpmsg.rs to the runtime.
use daphne_sc.Prelude.{◌≡◌, refl, arith, [], ◌∷◌, true, ok}
use daphne_sc.Afe.{validate, validate_12bit, validate_afes, validate_channels}
use daphne_sc.Rpu.{AfeCommandReply}
use daphne_sc.Rpmsg.Device.{RpmsgAfeTransport, opened}
use daphne_sc.Rpmsg.Transact.{submit_afe_command}
use daphne_sc.Rpmsg.OverRuntime.{RuntimeFile, runtime_file}
use daphne_sc.Rpmsg.Configuration.{configuration_applied}
use daphne_sc.Runtime.Session.Whole.{Configured}
use daphne_sc.Tests.Fake.{FakeHardware, fake, afe_config, channel_config, configure}
use daphne_sc.Tests.Core.{configure-InRange}
use daphne_sc.Tests.Rpu.{fake-Accepting, open_ready, open_runtime}

abbrev connected : RpmsgAfeTransport (RuntimeFile FakeHardware)
unfolding opened
connected = opened (record { runtime = open_runtime; pending = [] }) 1000

configure_valid : validate configure ≡ ok tt
unfolding validate validate_12bit validate_afes validate_channels
configure_valid = refl

configuration_applied_example :
    (t' : RpmsgAfeTransport (RuntimeFile FakeHardware)) × (reply : AfeCommandReply)
    × (submit_afe_command (runtime_file fake) configure connected ≡ (t', ok reply))
    × (reply.accepted ≡ true)
    × (reply.applied ≡ true)
    × Configured fake fake-Accepting open_runtime
        (afe_config ∷ [])
        (channel_config ∷ [])
        600
        t'.file.runtime
unfolding connected
configuration_applied_example =
    configuration_applied fake fake-Accepting connected (afe_config ∷ []) (channel_config ∷ []) 600
      refl open_ready configure-InRange configure_valid (omega arith) (omega arith)
