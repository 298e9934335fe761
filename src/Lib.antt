-- ===== src/Lib.antt =====
-- The growatt-datalogger server: what its protocol package does with the bytes of a Growatt
-- datalogger, from the TCP stream to the settings of an inverter.
--
-- Paths are below packages/growatt-protocol/src/growatt_protocol, but for those of the Hub, which are
-- below custom_components/growatt_datalogger. A definition has the name of the
-- Python function or class that it models, or stands for a part of one that its comment names.
--
-- Parts, in the order in which they use one another:
--
--   Base          lists, maps and binary digits over native numbers
--   Python        exceptions as values, `bytes`, `str` and `datetime`, as far as they are used
--   Crc           crc.py: the checksum; Bitwise and Check prove it
--   Crypt         crypt.py: the body cipher; Keystream proves it
--   Framing       framing.py: `Framer` as a record, `feed` as a function of it
--   Records       records.py: `Frame` and its accessors, the parser of register groups, the replies
--   Frames        testing/frames.py: the frames of a device
--   Commands      commands.py: the commands and the parser of their replies
--   Session       session.py: the state of a connection, `handle_frame`, `send_command`, `close`
--   Registers     registers/base.py: specs, profiles and the decoding of values; registers/profiles.py
--                 and registers/writable.py
--   Settings      settings.py: the grouping of reads, and settings read and written over a channel
--   Relay         relay.py: the connection to the Growatt cloud, `RelayConnection` as a record
--   Server        server.py: one connection with its framer, session and relay, and its read loop;
--                 Steps is the relation of what may happen to it
--   Redaction     redaction.py: the serials of a captured frame replaced
--   Hub           write_entity.py: a setting written and read back; hub.py: the choice of a connection,
--                 and which settings registers are asked for; services.py: the raw write of a register
--
-- A connection's bytes go into `Framer.feed`; each frame goes into `Session.handle_frame`, which
-- answers it first and then parses it or matches it to the command that waits. Commands are built
-- by Commands.Build and sent by Session.Command. The helpers of Settings send theirs over any
-- channel, of which a session is one; the Hub uses these helpers. A connection of the Server gives
-- each chunk to its relay first, which may take it or fall out of use, and only then to its framer and
-- session. What a record carries is given its meaning by Registers.Decode.
--
-- State and errors. A session is a record, and an action on it takes a `World`, the session and the
-- events seen from outside so far, to a result and a world; an exception is a result, and what was
-- done before it stays done. What the session is handed is an `Env`: the clock, whether the
-- transport takes some bytes, and the callbacks, of which it is only seen whether they return. A
-- coroutine that waits for a reply is two actions, one for each side of its wait: `begin_command`
-- and `end_command` are `send_command`, and whatever comes in between is applied to the world in
-- between. The future of a command is a value in the session.
--
-- Fuel. The loop of `feed` runs on fuel above the length of the buffer, and each of its rounds cuts
-- off at least eight bytes, so that the fuel is never used up. The loop of `_next_sequence` runs on
-- the rounds that the source gives it. All other loops are recursions on a list or a count.
--
-- Numbers. Bytes, words and sequence numbers are natural numbers, reduced where the source reduces
-- them and refused where `to_bytes` or `bytes` raises. A value to be written may be negative, and is
-- a `ℤ`. A subtraction is written only where it cannot be cut off.
--
-- Interleavings. Between two reads of a connection a caller may send a command, a wait may end, the
-- clock may be set and the task that reads from the cloud may make a round: each is a step of the
-- relation `Move`, and a connection's life is any sequence of them.
--
-- Parameters. `Builtins` is what Python makes of the values that a caller passes to `encode`;
-- `Channel` is what settings are sent over. Floats and their division by a scale, which may raise, are
-- parameters of the decoder, HMAC-SHA256 one of the redaction, the lookup of a connection and the
-- clock of the entities.
--
-- Not modelled: sockets, locks and pauses; the listener and its table of connections; log lines and
-- the texts of messages; the register tables, which are data; the forms, entities and services of Home
-- Assistant but for the parts above; the tools.
pub mod Base
pub mod Python
pub mod Crc
pub mod Crypt
pub mod Framing
pub mod Records
pub mod Frames
pub mod Commands
pub mod Session
pub mod Registers
pub mod Settings
pub mod Relay
pub mod Server
pub mod Redaction
pub mod Hub
