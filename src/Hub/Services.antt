-- ===== src/Hub/Services.antt =====
-- services.py: the raw write of a register, `_write`, which its caller has resolved to a datalogger.
--
-- `session` is `hub.session_for`, and `str` is Python's of an `int`. The wording of the messages is
-- left out.
use growatt_datalogger.Base.{
  Bool, List, Option, [], contains, if◌then◌else◌, none, some, ℕ, ◌||◌, ◌∷◌,
}
use growatt_datalogger.Commands.Build.{Command, write_datalogger, write_inverter, ℤ}
use growatt_datalogger.Commands.Reply.{CommandResponse, is_ok}
use growatt_datalogger.Python.{Result, Str, err, home_assistant_error, ok, service_validation_error}
use growatt_datalogger.Hub.Write.{write_failure}
use growatt_datalogger.Settings.Channel.{Channel, Task}
use growatt_datalogger.Settings.Explain.{Explanation, explain_rejection}

-- `int | str`
pub data RawValue : Type 0 where
  number_value : ℤ → RawValue
  text_value : Str → RawValue

-- The data of a call, and the serial number that `_resolve` gives for its device.
pub record WriteCall : Type 0 where
  pub serial : Str
  pub to_datalogger : Bool
  pub register : ℕ
  pub value : RawValue
  pub confirm : Bool

pub record WriteOutcome : Type 0 where
  pub register : Option ℕ
  pub result : Option ℕ

-- `_NO_CONFIRM_REQUIRED`
abbrev no_confirm_required : List ℕ
no_confirm_required = 3 ∷ []

unfoldable pub is_allowed : WriteCall → Bool
is_allowed call = contains no_confirm_required call.register || call.confirm

-- A protocol that is not known has no serial width, as 0 has none.
abbrev pub known_protocol : Option ℕ → ℕ
known_protocol none = 0
known_protocol (some protocol) = protocol

abbrev outcome : CommandResponse → WriteOutcome
outcome response = record { register = response.register; result = response.result }

abbrev inverter_command : Str → ℕ → ℕ → RawValue → Result Command
inverter_command serial protocol register (number_value n) =
    write_inverter serial protocol register n
inverter_command serial protocol register (text_value s) = err service_validation_error

abbrev str_of : (ℤ → Str) → RawValue → Str
str_of str (number_value n) = str n
str_of str (text_value s) = s

-- The command of a call, on a channel of this protocol.
unfoldable pub raw_command : (ℤ → Str) → ℕ → WriteCall → Result Command
raw_command str protocol call =
    if call.to_datalogger
    then write_datalogger call.serial protocol call.register (str_of str call.value)
    else inverter_command call.serial protocol call.register call.value

module _ {S : Type 0} where
  abbrev pub explained_error : Result Explanation × S → Result WriteOutcome × S
  explained_error (ok explanation, s) = (err home_assistant_error, s)
  explained_error (err e, s) = (err e, s)

  unfoldable pub after_raw :
      WriteCall → Channel S → Result CommandResponse × S → Result WriteOutcome × S
  after_raw call channel (err e, s) = (err (write_failure e), s)
  after_raw call channel (ok response, s) =
      if is_ok response
      then (ok (outcome response), s)
      else if call.to_datalogger
      then (err home_assistant_error, s)
      else explained_error (explain_rejection channel call.register s)

  unfoldable pub send_raw : WriteCall → Channel S → Result Command → Task S WriteOutcome
  unfolding after_raw
  send_raw call channel (err e) s = (err e, s)
  send_raw call channel (ok command) s = after_raw call channel (channel.send_command command s)

  unfoldable pub write_raw_over : (ℤ → Str) → WriteCall → Option (Channel S) → Task S WriteOutcome
  unfolding send_raw raw_command is_allowed
  write_raw_over str call none s = (err home_assistant_error, s)
  write_raw_over str call (some channel) s =
      if is_allowed call
      then send_raw call channel (raw_command str (known_protocol (channel.protocol s)) call) s
      else (err service_validation_error, s)

  -- `_write`
  unfoldable pub write_raw :
      (ℤ → Str) → (Str → S → Option (Channel S)) → WriteCall → Task S WriteOutcome
  unfolding write_raw_over
  write_raw str session call s = write_raw_over str call (session call.serial s) s
