-- ===== src/Server/Tests.antt =====
-- Instances of the theorems on connections.
use growatt_datalogger.Base.{List, [], false, none, refl, some, true, ℕ, ◌∷◌, ◌≡◌}
use growatt_datalogger.Framing.{
  Framer, after_length, cut_within, feed, feed_bytes, feed_loop, frame_length, next_round,
}
use growatt_datalogger.Framing.Stream.{IsDrained}
use growatt_datalogger.Python.{Bytes, from_bytes, ok, slice}
use growatt_datalogger.Relay.{Upstream, degrade, start}
use growatt_datalogger.Server.Acknowledged.{
  IsTakenOver, Moves-IsTakenOver, OneAcknowledges, read-OneAcknowledges,
}
use growatt_datalogger.Server.Link.{
  Link, handle_all, open_link, process_chunk, read_loop, relay_chunk,
}
use growatt_datalogger.Server.Steps.{read, stay, step}
use growatt_datalogger.Server.Stream.{alone, read_loop-handle_all, reads_of, seen, stream_of}
use growatt_datalogger.Session.State.{Env, World, make_session}

abbrev fresh : Framer
fresh = record { max_frame = 8192; buffer = [] }

abbrev ping_frame : Bytes
ping_frame = 0 ∷ 1 ∷ 0 ∷ 2 ∷ 0 ∷ 3 ∷ 1 ∷ 22 ∷ 65 ∷ []

abbrev clock : ℕ → Env
clock n = record {
  now = record { year = 2026; month = 8; day = 31; hour = 12; minute = 34; second = n };
  deliver = λ b. true;
  on_record = none;
  on_identify = none;
}

abbrev idle_cloud : Upstream
idle_cloud = record { held = 0; accepts = true }

abbrev in_pieces : List (Upstream × Bytes)
in_pieces =
    (idle_cloud, 0 ∷ 1 ∷ 0 ∷ [])
    ∷ (idle_cloud, 2 ∷ 0 ∷ 3 ∷ 1 ∷ [])
    ∷ (idle_cloud, 22 ∷ 65 ∷ [])
    ∷ []

abbrev start_world : World
start_world = record { session = make_session false; events = [] }

fresh-IsDrained : IsDrained fresh
unfolding next_round
fresh-IsDrained = refl

one_ping : (feed fresh (stream_of in_pieces)).0 ≡ ok (ping_frame ∷ [])
unfolding feed feed_bytes feed_loop next_round after_length cut_within frame_length from_bytes slice
one_ping = refl

read_loop-handle_all_example :
    seen (read_loop clock 0 (reads_of in_pieces) (alone fresh start_world))
    ≡ handle_all clock 0 (ping_frame ∷ []) start_world
read_loop-handle_all_example =
    read_loop-handle_all clock 0 in_pieces fresh (ping_frame ∷ []) fresh-IsDrained
      (refl, (refl, (refl, tt))) one_ping start_world

abbrev relayed : Link
relayed = open_link fresh false (some (262144, true))

read-OneAcknowledges_example :
    OneAcknowledges relayed ping_frame
      (process_chunk clock 0 ping_frame (relay_chunk idle_cloud ping_frame relayed)).1
read-OneAcknowledges_example =
    read-OneAcknowledges fresh false (some (262144, true)) relayed clock 0 idle_cloud ping_frame
      (stay relayed)

-- The cloud could not be reached.
abbrev unreached : Link
unreached = open_link fresh false (some (262144, false))

abbrev after_ping : Link
after_ping = (process_chunk clock 0 ping_frame (relay_chunk idle_cloud ping_frame unreached)).1

Moves-IsTakenOver_example : IsTakenOver unreached after_ping
unfolding start degrade
Moves-IsTakenOver_example =
    Moves-IsTakenOver fresh false (some (262144, false)) unreached after_ping (stay unreached)
      (step unreached after_ping after_ping (read clock 0 idle_cloud ping_frame unreached)
        (stay after_ping))
      refl
