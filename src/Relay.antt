-- ===== src/Relay.antt =====
-- relay.py: the connection to the Growatt cloud that a datalogger's connection is paired with.
use growatt_datalogger.Base.{
  Bool, List, [], false, if◌then◌else◌, ltb, not, true, ℕ, ◌++◌, ◌||◌, ◌∷◌,
}
use growatt_datalogger.Python.{Bytes, is_empty}

pub data Pump : Type 0 where
  absent scheduled reading ended : Pump

-- `RelayConnection`. `upstream` is what has been written to the cloud, and `downstream` what has
-- been handed to the datalogger, a read at a time; `_reader` is there whenever `_writer` is, until
-- `close`.
pub record Relay : Type 0 where
  pub max_buffer : ℕ
  pub has_writer : Bool
  pub pump : Pump
  pub connected : Bool
  pub degraded : Bool
  pub upstream : List Bytes
  pub downstream : List Bytes

-- `RelayConnection(config, …)`
abbrev pub make_relay : ℕ → Relay
make_relay max_buffer = record {
  max_buffer = max_buffer;
  has_writer = false;
  pump = absent;
  connected = false;
  degraded = false;
  upstream = [];
  downstream = [];
}

abbrev pub default_max_buffer : ℕ
default_max_buffer = 262144

-- What the transport to the cloud says while some bytes are forwarded: how many it still holds, and
-- whether its `write` returns.
pub record Upstream : Type 0 where
  pub held : ℕ
  pub accepts : Bool

-- `_degrade`
unfoldable pub degrade : Relay → Relay
degrade r = if r.degraded then r else record r { degraded = true; connected = false }

-- `start`, by whether the cloud could be reached
unfoldable pub start : Bool → Relay → Bool × Relay
unfolding degrade
start reached r =
    if reached
    then (true, record r { has_writer = true; connected = true; pump = scheduled })
    else (false, degrade r)

unfoldable pub forward : Upstream → Bytes → Relay → Relay
unfolding degrade
forward up chunk r =
    if not r.connected || not r.has_writer
    then r
    else if ltb r.max_buffer up.held
    then degrade r
    else if up.accepts
    then record r { upstream = r.upstream ++ chunk ∷ [] }
    else degrade r

-- The task of `_pump_downstream` takes its first step.
abbrev pub begin_pump : Pump → Pump
begin_pump scheduled = reading
begin_pump absent = absent
begin_pump reading = reading
begin_pump ended = ended

-- One round of its loop, where it is in the loop: bytes come from the cloud and the datalogger's
-- transport takes them or raises; or the read ends or raises. What leaves the loop degrades.
pub data Pumped : Type 0 where
  received : Bytes → Bool → Pumped
  finished : Pumped

unfoldable pub end_pump : Relay → Relay
unfolding degrade
end_pump r = degrade (record r { pump = ended })

unfoldable pub pump_read : Pumped → Relay → Relay
unfolding end_pump
pump_read finished r = end_pump r
pump_read (received content taken) r =
    if is_empty content
    then end_pump r
    else if taken
    then record r { downstream = r.downstream ++ content ∷ [] }
    else end_pump r

unfoldable pub round_in : Pump → Pumped → Relay → Relay
unfolding pump_read
round_in reading p r = pump_read p r
round_in absent p r = r
round_in scheduled p r = r
round_in ended p r = r

unfoldable pub pump_round : Pumped → Relay → Relay
unfolding round_in
pump_round p r = round_in r.pump p r

unfoldable pub cancel_pump : Pump → Relay → Relay
unfolding end_pump
cancel_pump reading r = end_pump r
cancel_pump absent r = r
cancel_pump scheduled r = r
cancel_pump ended r = r

-- `close`: a pump that is in its loop is cancelled there, and degrades as it leaves
unfoldable pub close_relay : Relay → Relay
unfolding cancel_pump
close_relay r = record (cancel_pump r.pump (record r { connected = false })) {
  pump = absent;
  has_writer = false;
}
