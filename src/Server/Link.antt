-- ===== src/Server/Link.antt =====
-- One connection: `_handle_client` up to its read loop, `_read_loop`, and what may happen between two
-- reads.
use growatt_datalogger.Base.{
  Bool, List, Option, [], false, if◌then◌else◌, none, some, suc, true, ℕ, ◌&&◌, ◌∷◌,
}
use growatt_datalogger.Framing.{Framer, feed}
use growatt_datalogger.Python.{Bytes, Result, connection_error, err, is_empty, ok, timeout_error}
use growatt_datalogger.Relay.{Relay, Upstream, forward, make_relay, start}
use growatt_datalogger.Session.Handle.{handle_frame}
use growatt_datalogger.Session.State.{
  Action, Env, Session, World, done, make_session, raising, ◌>>◌,
}

pub record Link : Type 0 where
  pub framer : Framer
  pub world : World
  pub relay : Option Relay

-- A connection is set up: whether a relay is configured, with its buffer limit, and if so whether
-- the cloud could be reached.
abbrev session_with : Bool → Bool → Session
session_with push suppress = record (make_session suppress) { push_time_on_announce = push }

abbrev pub open_link : Framer → Bool → Option (ℕ × Bool) → Link
open_link framer push none = record {
  framer = framer;
  world = record { session = session_with push false; events = [] };
  relay = none;
}
open_link framer push (some (max_buffer, reached)) =
    let started = start reached (make_relay max_buffer) in
    record {
      framer = framer;
      world = record { session = session_with push started.0; events = [] };
      relay = some started.1;
    }

-- What a read ends with.
pub data Read : Type 0 where
  chunk : Upstream → Bytes → Read
  silence reset_by_peer : Read

-- The session stops suppressing its replies once its relay has degraded.
unfoldable pub take_over : Option Relay → Session → Session
take_over none s = s
take_over (some r) s =
    if r.degraded && s.suppress_replies then record s { suppress_replies = false } else s

abbrev pub forward_to : Option Relay → Upstream → Bytes → Option Relay
forward_to none up content = none
forward_to (some r) up content = some (forward up content r)

-- The bytes go upstream before anything looks at them.
unfoldable pub relay_chunk : Upstream → Bytes → Link → Link
unfolding forward take_over
relay_chunk up content link =
    let relay = forward_to link.relay up content in
    record link {
      relay = relay;
      world = record link.world { session = take_over relay link.world.session };
    }

-- The frames of one chunk, one after the other; each has a clock and a transport of its own, the
-- `n`-th frame of the connection those of `env n`. An exception ends the handling.
unfoldable pub handle_all : (ℕ → Env) → ℕ → List Bytes → Action (Unit {0})
handle_all env n [] = done
handle_all env n (content ∷ frames) = do
  handle_frame (env n) (record { raw = content })
  handle_all env (suc n) frames

abbrev pub after_frames : ℕ → List Bytes → ℕ
after_frames n [] = n
after_frames n (content ∷ frames) = after_frames (suc n) frames

abbrev pub after_fed : ℕ → Result (List Bytes) → ℕ
after_fed n (ok frames) = after_frames n frames
after_fed n (err e) = n

abbrev pub handle_fed : (ℕ → Env) → ℕ → Result (List Bytes) → Action (Unit {0})
handle_fed env n (ok frames) = handle_all env n frames
handle_fed env n (err e) = raising e

abbrev pub with_world : Link → Framer → Result (Unit {0}) × World → Result (Unit {0}) × Link
with_world link framer (result, w) = (result, record link { framer = framer; world = w })

-- A chunk that is not empty, once it has been relayed: the result, and the connection as it is left.
unfoldable pub process_chunk : (ℕ → Env) → ℕ → Bytes → Link → Result (Unit {0}) × Link
process_chunk env n content link =
    with_world link (feed link.framer content).1
      (handle_fed env n (feed link.framer content).0 link.world)

abbrev pub goes_on : Result (Unit {0}) × Link → Result Bool × Link
goes_on (ok u, link) = (ok true, link)
goes_on (err e, link) = (err e, link)

-- One round of the loop: whether it goes on.
unfoldable pub read_round : (ℕ → Env) → ℕ → Read → Link → Result Bool × Link
unfolding relay_chunk process_chunk
read_round env n silence link = (err timeout_error, link)
read_round env n reset_by_peer link = (err connection_error, link)
read_round env n (chunk up content) link =
    if is_empty content
    then (ok false, link)
    else goes_on (process_chunk env n content (relay_chunk up content link))

-- The number of the next frame behind a read.
abbrev pub count_read : Read → ℕ → Link → ℕ
count_read (chunk up content) n link = after_fed n (feed link.framer content).0
count_read silence n link = n
count_read reset_by_peer n link = n

abbrev pub continue_loop :
    Result Bool × Link → (Link → Result (Unit {0}) × Link) → Result (Unit {0}) × Link
continue_loop (ok true, link) rest = rest link
continue_loop (ok false, link) rest = (ok tt, link)
continue_loop (err e, link) rest = (err e, link)

-- `_read_loop`, over the reads that there are; it waits where they run out.
unfoldable pub read_loop : (ℕ → Env) → ℕ → List Read → Link → Result (Unit {0}) × Link
unfolding read_round
read_loop env n [] link = (ok tt, link)
read_loop env n (r ∷ reads) link =
    continue_loop (read_round env n r link) (read_loop env (count_read r n link) reads)
