-- ===== src/Hub/Write.antt =====
-- write_entity.py: writing a setting and reading it back, `GrowattWriteEntity`.
--
-- The channel to the datalogger, if it is connected, is looked up each time the source does:
-- `session` is `hub.session_for_device(…)`, `now` is `dt_util.utcnow()`. The wording of the messages
-- is left out.
use growatt_datalogger.Base.{Bool, List, Option, if◌then◌else◌, none, some, true, ℕ, ◌+◌, ◌==◌}
use growatt_datalogger.Base.Dict.{lookup}
use growatt_datalogger.Commands.Build.{pos}
use growatt_datalogger.Commands.Reply.{CommandResponse, is_ok}
use growatt_datalogger.Python.{
  Datetime, Error, Result, command_timeout, connection_error, err, home_assistant_error, ok,
  value_error,
}
use growatt_datalogger.Registers.Writable.{Builtins, Setting, WritableRegister, decode, encode}
use growatt_datalogger.Settings.Channel.{Channel}
use growatt_datalogger.Settings.Explain.{Explanation, explain_rejection}
use growatt_datalogger.Settings.Write.{read_back, write_register}

-- An entity and the channels' state. `forced` counts the states sent although unchanged, `refreshes`
-- the background refreshes asked for.
pub record Writing (S : Type 0) : Type 0 where
  pub channel : S
  pub current : Option Setting
  pub current_at : Option Datetime
  pub forced : ℕ
  pub refreshes : ℕ

-- `len(READBACK_DELAYS)`
abbrev pub readback_attempts : ℕ
readback_attempts = 3

-- `except (CommandTimeout, ConnectionError)` around the write
abbrev pub write_failure : Error → Error
write_failure command_timeout = home_assistant_error
write_failure connection_error = home_assistant_error
write_failure e = e

-- `except ValueError` around the encoding
abbrev pub encode_failure : Error → Error
encode_failure value_error = home_assistant_error
encode_failure e = e

module _ {S : Type 0} (builtins : Builtins) (entry : WritableRegister)
    (session : S → Option (Channel S)) (now : S → Datetime) where
  abbrev pub in_channel : Writing S → S → Writing S
  in_channel w s = record w { channel = s }

  -- `_remember`
  abbrev pub remember : Option Setting → Writing S → Writing S
  remember value w = record w { current = value; current_at = some (now w.channel) }

  abbrev pub refreshed : Writing S → Result (Option ℕ) × S → Result (Option ℕ) × Writing S
  refreshed w (ok none, s) = (ok none, in_channel w s)
  refreshed w (ok (some word), s) =
      (ok (some word), remember (decode builtins entry word) (in_channel w s))
  refreshed w (err e, s) = (err e, in_channel w s)

  abbrev pub refresh_over : Writing S → Option (Channel S) → Result (Option ℕ) × Writing S
  refresh_over w none = (ok none, w)
  refresh_over w (some channel) =
      refreshed w (read_back channel builtins.int_of entry.register readback_attempts w.channel)

  -- `_async_refresh`
  unfoldable pub refresh : Writing S → Result (Option ℕ) × Writing S
  refresh w = refresh_over w (session w.channel)

  -- What the read-back says about the word that was written.
  unfoldable pub judge : ℕ → Result (Option ℕ) × Writing S → Result (Unit {0}) × Writing S
  judge word (ok none, w) = (err home_assistant_error, record w { refreshes = w.refreshes + 1 })
  judge word (ok (some readback), w) =
      (if readback == word then ok tt else err home_assistant_error, w)
  judge word (err e, w) = (err e, w)

  abbrev pub rejected : Writing S → Result Explanation × S → Result (Unit {0}) × Writing S
  rejected w (ok explanation, s) = (err home_assistant_error, in_channel w s)
  rejected w (err e, s) = (err e, in_channel w s)

  unfoldable pub after_write :
      Channel S → ℕ → Writing S → Result CommandResponse × S → Result (Unit {0}) × Writing S
  unfolding refresh judge
  after_write channel word w (err e, s) = (err (write_failure e), in_channel w s)
  after_write channel word w (ok response, s) =
      if is_ok response
      then judge word (refresh (in_channel w s))
      else rejected w (explain_rejection channel entry.register s)

  unfoldable pub write_encoded : Channel S → Writing S → Result ℕ → Result (Unit {0}) × Writing S
  unfolding after_write
  write_encoded channel w (err e) = (err (encode_failure e), w)
  write_encoded channel w (ok word) =
      after_write channel word w (write_register channel entry.register (pos word) true w.channel)

  unfoldable pub write_over :
      Option (Channel S) → Setting → Writing S → Result (Unit {0}) × Writing S
  unfolding write_encoded
  write_over none value w = (err home_assistant_error, w)
  write_over (some channel) value w = write_encoded channel w (encode builtins entry value)

  -- `_async_write_and_confirm`
  unfoldable pub write_and_confirm : Setting → Writing S → Result (Unit {0}) × Writing S
  unfolding write_over
  write_and_confirm value w = write_over (session w.channel) value w

  -- `except HomeAssistantError: self._republish(); raise`
  unfoldable pub republish : Result (Unit {0}) × Writing S → Result (Unit {0}) × Writing S
  republish (err home_assistant_error, w) =
      (err home_assistant_error, record w { forced = w.forced + 1 })
  republish (r, w) = (r, w)

  -- `_async_write`
  unfoldable pub write : Setting → Writing S → Result (Unit {0}) × Writing S
  unfolding write_and_confirm republish
  write value w = republish (write_and_confirm value w)

abbrev decoded_word : Builtins → WritableRegister → Option ℕ → Option Setting
decoded_word builtins entry none = none
decoded_word builtins entry (some word) = decode builtins entry word

-- `_reported`, of the words of the holding space
unfoldable pub reported : Builtins → WritableRegister → List (ℕ × ℕ) → Option Setting
reported builtins entry held = decoded_word builtins entry (lookup entry.register held)

-- `_state`, of what was reported when, and read when; `later a b` is `a > b`
abbrev pub state_of :
    (Datetime → Datetime → Bool)
    → Option Setting
    → Option Datetime
    → Option Setting
    → Option Datetime
    → Option Setting
state_of later none announced current current_at = current
state_of later (some r) announced none current_at = some r
state_of later (some r) announced (some c) none = some r
state_of later (some r) none (some c) (some at) = some c
state_of later (some r) (some then_) (some c) (some at) = if later then_ at then some r else some c
