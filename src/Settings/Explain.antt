-- ===== src/Settings/Explain.antt =====
-- `explain_rejection` of settings.py, without the wording of its three messages.
use growatt_datalogger.Base.{Bool, false, if◌then◌else◌, none, true, ℕ}
use growatt_datalogger.Commands.Reply.{CommandResponse, Value, integer, nothing, text}
use growatt_datalogger.Python.{
  Error, Result, command_timeout, connection_error, err, ok, value_error,
}
use growatt_datalogger.Records.Frame.{protocol}
use growatt_datalogger.Settings.Channel.{Channel, Task, address, send_read, ◌>>=◌}

pub data Explanation : Type 0 where
  unprobed lacks_register : Explanation
  refuses : Value → Explanation

-- `except (CommandTimeout, ConnectionError, ValueError)`
abbrev is_unprobed : Error → Bool
is_unprobed command_timeout = true
is_unprobed connection_error = true
is_unprobed value_error = true
is_unprobed e = false

abbrev explained : CommandResponse → Explanation
explained probe = if probe.empty then lacks_register else elim probe.value [
  | nothing ↦ lacks_register
  | integer n ↦ refuses (integer n)
  | text content ↦ refuses (text content)
]

module _ {S : Type 0} where
  unfoldable pub after_probe : Result CommandResponse × S → Result Explanation × S
  after_probe (ok probe, s) = (ok (explained probe), s)
  after_probe (err e, s) = (if is_unprobed e then ok unprobed else err e, s)

  unfoldable pub probe : Channel S → ℕ → Task S CommandResponse
  probe channel register = do
    (serial, protocol) ← address channel
    send_read channel serial protocol register none

  unfoldable pub explain_rejection : Channel S → ℕ → Task S Explanation
  unfolding after_probe probe
  explain_rejection channel register s = after_probe (probe channel register s)
