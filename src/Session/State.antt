-- ===== src/Session/State.antt =====
-- The state of a `Session`, what it does to the world outside, and the actions over both.
--
-- What the session is handed at construction or takes from the event loop is an `Env`: the clock,
-- whether the transport takes the bytes, and the two callbacks, of which it is only seen whether
-- they return or raise.
use growatt_datalogger.Base.{Bool, List, Option, [], false, none, true, ℕ, ◌++◌, ◌-◌, ◌∷◌}
use growatt_datalogger.Commands.Reply.{CommandResponse}
use growatt_datalogger.Python.{Bytes, Datetime, Error, Result, Str, connection_error, err, ok}
use growatt_datalogger.Records.Frame.{Frame}
use growatt_datalogger.Records.Parse.{RecordPayload}

pub record Record : Type 0 where
  pub frame : Frame
  pub payload : RecordPayload
  pub buffered : Bool

pub record Env : Type 0 where
  pub now : Datetime
  pub deliver : Bytes → Bool
  pub on_record : Option (Record → Bool)
  pub on_identify : Option (Str → Str → ℕ → Bool)

pub record Stats : Type 0 where
  pub records : ℕ
  pub acknowledged : ℕ
  pub pings : ℕ
  pub decode_errors : ℕ
  pub crc_mismatches : ℕ
  pub encrypted_records : ℕ
  pub unknown_functions : List (ℕ × ℕ)

-- `_Outstanding` without its future: that object is shared with the coroutine that waits for it,
-- also after the session has let go of it, so that it has a place of its own in the session.
pub record Outstanding : Type 0 where
  pub function : ℕ
  pub sequence : ℕ
  pub register : ℕ

-- The future of the latest command.
pub data Future : Type 0 where
  pending : Future
  resolved : CommandResponse → Future
  failed : Error → Future

pub record Unsolicited : Type 0 where
  pub ordinal : ℕ
  pub at : Datetime
  pub response : CommandResponse

-- `_time_task`: never created, not done, or done
pub data TimeTask : Type 0 where
  absent running finished : TimeTask

pub record Session : Type 0 where
  pub stats : Stats
  pub suppress_replies : Bool
  pub datalogger_serial : Option Str
  pub inverter_serial : Option Str
  pub protocol : Option ℕ
  pub last_seen : Option Datetime
  pub closed : Bool
  pub key_exchange : Bool
  pub encrypted : Bool
  pub push_time_on_announce : Bool
  pub time_synced : Bool
  pub time_task : TimeTask
  pub sequence : ℕ
  pub outstanding : Option Outstanding
  pub future : Future
  pub unsolicited : List Unsolicited
  pub unsolicited_seen : ℕ

-- What a session does that can be seen from outside, in order.
pub data Event : Type 0 where
  sent : Bytes → Event
  identified : Str → Str → ℕ → Event
  recorded : Record → Event
  time_task_created : Event

pub record World : Type 0 where
  pub session : Session
  pub events : List Event

-- An action may raise; what it did before stays done.
abbrev pub Action {ℓ} : Type ℓ → Type ℓ
Action A = World → Result A × World

abbrev pub continue {ℓ κ} :
    {A : Type ℓ} {B : Type κ} → Result A × World → (A → Action B) → Result B × World
continue (ok a, w) f = f a w
continue (err e, w) f = (err e, w)

infixl 5 ◌>>=◌ ◌>>◌
abbrev pub ◌>>=◌ {ℓ κ} : {A : Type ℓ} {B : Type κ} → Action A → (A → Action B) → Action B
◌>>=◌ m f w = continue (m w) f

abbrev pub ◌>>◌ {ℓ} : {B : Type ℓ} → Action (Unit {0}) → Action B → Action B
m >> n = m >>= λ _. n

abbrev pub pure {ℓ} : {A : Type ℓ} → A → Action A
pure a w = (ok a, w)

abbrev pub done : Action (Unit {0})
done w = (ok tt, w)

abbrev pub raising {ℓ} : {A : Type ℓ} → Error → Action A
raising e w = (err e, w)

abbrev pub lift {ℓ} : {A : Type ℓ} → Result A → Action A
lift r w = (r, w)

abbrev pub gets {ℓ} : {A : Type ℓ} → (Session → A) → Action A
gets f w = (ok (f w.session), w)

abbrev pub modify : (Session → Session) → Action (Unit {0})
modify f w = (ok tt, record w { session = f w.session })

abbrev pub modify_stats : (Stats → Stats) → Action (Unit {0})
modify_stats f = modify (λ s. record s { stats = f s.stats })

abbrev pub emit : Event → Action (Unit {0})
emit e w = (ok tt, record w { events = w.events ++ e ∷ [] })

abbrev pub branch {ℓ} : {A : Type ℓ} → Bool → Action A → Action A → Action A
branch b m n w = elim b [ true ↦ m w | false ↦ n w ]

-- `await self._send(data)`
unfoldable pub send : Env → Bytes → Action (Unit {0})
send env content = branch (env.deliver content) (emit (sent content)) (raising connection_error)

abbrev no_stats : Stats
no_stats = record {
  records = 0;
  acknowledged = 0;
  pings = 0;
  decode_errors = 0;
  crc_mismatches = 0;
  encrypted_records = 0;
  unknown_functions = [];
}

abbrev pub sequence_floor : ℕ
sequence_floor = 0x8000

-- exclusive
abbrev pub sequence_ceiling : ℕ
sequence_ceiling = 0xFFFE

-- `Session(…)`
abbrev pub make_session : Bool → Session
make_session suppress = record {
  stats = no_stats;
  suppress_replies = suppress;
  datalogger_serial = none;
  inverter_serial = none;
  protocol = none;
  last_seen = none;
  closed = false;
  key_exchange = false;
  encrypted = false;
  push_time_on_announce = true;
  time_synced = false;
  time_task = absent;
  sequence = sequence_floor - 1;
  outstanding = none;
  future = pending;
  unsolicited = [];
  unsolicited_seen = 0;
}
