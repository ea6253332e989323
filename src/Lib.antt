-- ===== src/Lib.antt =====
-- daphne-sc: the slow control of a front-end board, from the commands of a client to the registers of
-- the analog front ends (AFEs).
--
-- The server receives requests, turns each into an AFE command, checks it and sends it in frames of 64
-- bytes to a real-time processor (RPU). The runtime on the RPU decodes a frame, refuses it while an
-- interlock is open, carries it out on the AFE hardware and answers with a frame. What is modelled:
--
--   Afe        crates/daphne-sc-core/src/afe.rs. Identifiers, command and configuration types,
--              `validate`. `AfeId::from_board` is `from_board`, `ChannelId::new` is `new_channel`;
--              the accessors are the fields of the records.
--   AfeHw      crates/daphne-sc-core/src/afe_hw.rs. The offsets of the registers and the words written
--              to them.
--   AfeFunctions  crates/daphne-sc-core/src/afe_functions.rs. The table of named functions and their
--              bit fields; Spec has the types and the macro, Table the table.
--   Transport  crates/daphne-sc-core/src/transport.rs. The message types and their routing.
--   Bytes      the little-endian accessors at the foot of crates/daphne-sc-core/src/rpu_wire.rs.
--   Wire       the rest of rpu_wire.rs. Ops and Error have the enums and the checks, Command and Reply
--              the two frames, Payload the packed fields, FromAfe the frames of a command. The loops of
--              `configure_frontend_sequence` are `push_afes` and `push_channels`, the frame that each
--              pushes is `afe_frame` and `channel_frame`.
--   Runtime    crates/daphne-sc-rpu/src/lib.rs. `AfeHardware` is a record of operations on a hardware
--              state, each of which returns the next state also where it fails. `handle_frame` takes the
--              runtime to the next one and the reply. The arms of `apply_command` are `dispatch`, in a
--              monad that keeps what was changed before an error. Config has the protocol that
--              configuration calls are to follow, Session what becomes of a whole configuration.
--   Mmio       crates/daphne-sc-rpu/src/mmio.rs, the hardware of the runtime over a bus of registers, which is
--              a parameter (`RegisterIo`). Backend has the state and the errors, Access the waits and
--              the change of a bit, Spi, Channels and Alignment the methods of those parts, Hardware
--              the rest of `impl AfeHardware`; Calls has its methods as data. A method takes the
--              backend to the next one and a result; what it changed before an error stays.
--              The spin limit is the fuel of a wait.
--   Text       how numbers and the errors of afe.rs are printed in messages; Strings, Trim and Parse have the
--              methods of strings and the parsing of numbers that the server uses, on UTF-8 bytes.
--   Rpu        crates/daphne-sc-core/src/rpu.rs: the interface to the RPU as a record of operations on the
--              state of a transport, and the transport that refuses everything.
--   Rpmsg      crates/daphne-sc-server/src/rpmsg.rs: the sequence numbers; Device has the state of the
--              transport and the device file, which is a parameter (`RpmsgFile`), Transact the exchange of
--              frames over it, Texts the texts of its messages. OverRuntime puts the runtime at the
--              other end of a file that keeps the replies until they are read.
--   ClockChip  crates/daphne-sc-core/src/clockchip.rs over a bus (`ClockChipBus`), which is a parameter.
--              Registers has the table, Program the methods; a round of a loop is a function of its own.
--              RegisterFile says what a bus is that keeps what is written.
--   I2c        crates/daphne-sc-server/src/i2c.rs over the calls of the kernel (`I2cKernel`), a parameter;
--              `device_bus` makes a device a bus for the clock chip. Candidates and Discovery are about the
--              search, Chip about the clock chip behind a device.
--   Endpoint   crates/daphne-sc-server/src/endpoint.rs over /dev/mem (`DevMem`), a parameter.
--   Board      the operating system as the server sees it, a parameter: files, directories, systemctl, the
--              environment, the clock, the kernel's I2C calls and /dev/mem, on a state of the system.
--   Server     crates/daphne-sc-server/src. Preflight has the outcome of the preflight checks (preflight.rs),
--              with the configuration, the checks and the cache (`LinuxPreflight::check`) in its children.
--              Collector has status_collector.rs; an `f64` is its 64 bits there, and its arithmetic and
--              parsing are a parameter (`Floats`). Messages has the protobuf messages, Status the records
--              of daphne-sc-core/src/status.rs and their messages, Commands the `make_` functions, Submit `submit` and the course that the handlers
--              share (`exchange`), Afe a function per handler, Handlers `handle_payload` (handlers.rs), Router
--              `handle_envelope`, `needs_preflight` (router.rs) and the envelope (v2.rs). The generated code
--              that decodes and encodes messages, the readings of the board and the clock are parameters.
--   Tests      some of the tests of the modelled files, the fake hardware, and the theorems at concrete inputs.
--   Prelude    shared names, lists, results, tests into Bool, bit operations and UTF-8.
--
-- Numbers are natural numbers. The width of a field is a comment beside it and a hypothesis where a
-- theorem needs it (`IsCommand`, `IsReply`, `InRange`); casts and wrapping additions are written out. A
-- byte array is a list, strings inside frames are lists of bytes. All loops are structural recursion; that
-- of `trim` has the length of the text as its fuel, and each of its rounds makes the text shorter.
--
-- `apply_command` has no arm for `ReadAlignment`, so its model has no result there and `handle_frame`
-- returns an `Option`. Error values carry what the source puts in them; the printed forms are
-- modelled where a response of the server holds them.
--
-- Not modelled: the volatile reads and writes behind `RegisterIo` (`VolatileRegisterIo`), the system calls
-- behind the parameters, and the loop on the ZeroMQ socket. The codec of the protobuf messages is
-- generated by the build and is a parameter. The handlers take the readings of the board as a function;
-- Collector has the one of the server. The command-line tools and the OPC UA bridge are outside the
-- model.
pub mod Prelude
pub mod Bytes
pub mod Afe
pub mod ClockChip
pub mod I2c
pub mod Endpoint
pub mod Board
pub mod AfeHw
pub mod AfeFunctions
pub mod Transport
pub mod Wire
pub mod Runtime
pub mod Mmio
pub mod Text
pub mod Rpu
pub mod Rpmsg
pub mod Server
pub mod Tests
