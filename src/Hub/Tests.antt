-- ===== src/Hub/Tests.antt =====
-- Instances of the theorems on the integration.
use growatt_datalogger.Base.{
  true, Bool, arith, ltb, List, [], contains, false, if◌then◌else◌, none, refl, some, ℕ, ◌+◌, ◌==◌,
  ◌∷◌, ◌≡◌,
}
use growatt_datalogger.Commands.Build.{Command, pos, read_inverter, write_inverter}
use growatt_datalogger.Registers.Slots.{slot_for}
use growatt_datalogger.Commands.Reply.{CommandResponse, integer, response_of}
use growatt_datalogger.Hub.Asked.{settings_registers-asked}
use growatt_datalogger.Session.State.{Session, make_session}
use growatt_datalogger.Hub.Choose.{is_candidate, latest, seen_later, session_for}
use growatt_datalogger.Hub.Latest.{IsLatest, IsOrder, session_for-IsLatest}
use growatt_datalogger.Hub.Confirmed.{IsConfirmed, write-IsConfirmed}
use growatt_datalogger.Hub.Once.{IsSent, log_of, map_logged, write_raw-IsSent}
use growatt_datalogger.Hub.Services.{WriteCall, number_value, write_raw}
use growatt_datalogger.Hub.Misses.{Happening, happen_all, refresh, settings_registers, unknown_yet}
use growatt_datalogger.Hub.Write.{Writing, write}
use growatt_datalogger.Python.{Datetime, Result, err, ok, value_error}
use growatt_datalogger.Base.Dict.{lookup}
use growatt_datalogger.Registers.Writable.{
  number, raw, whole, Builtins, WritableRegister, decode, encode, output_power_limit, verified,
}
use growatt_datalogger.Settings.Channel.{Channel, address, send_read}
use growatt_datalogger.Settings.Write.{read_back, write_register}

abbrev level : WritableRegister
level = record {
  key = output_power_limit;
  register = 3;
  kind = number;
  confidence = verified;
  profiles = [];
  encoding = raw;
  minimum = 0;
  maximum = 100;
  options = [];
}

abbrev plain_builtins : Builtins
plain_builtins = record {
  str = λ value. [];
  int_of = λ chars. err value_error;
  int = λ value. ok 50;
  scale_up = λ value. ok 50;
  scale_down = λ word. whole word;
}

-- A datalogger that takes a write and answers each read with what was written.
abbrev took : CommandResponse
took = record (response_of 0x06 3) { result = some 0 }

abbrev holds : CommandResponse
holds = record (response_of 0x05 3) { value = integer 50; values = 50 ∷ [] }

abbrev obedient_send : Command → ℕ → Result CommandResponse × ℕ
obedient_send command n = (ok (if command.function == 5 then holds else took), n + 1)

abbrev obedient : Channel ℕ
obedient = record {
  datalogger_serial = λ n. some (88 ∷ []);
  protocol = λ n. some 2;
  send_command = obedient_send;
}

abbrev noon : ℕ → Datetime
noon n = record { year = 2026; month = 8; day = 31; hour = 12; minute = 34; second = n }

abbrev untouched : Writing ℕ
untouched = record { channel = 0; current = none; current_at = none; forced = 0; refreshes = 0 }

abbrev confirmed : Writing ℕ
confirmed = record {
  channel = 2;
  current = some (whole 50);
  current_at = some (noon 2);
  forced = 0;
  refreshes = 0;
}

writes_fifty :
    write plain_builtins level (λ n. some obedient) noon (whole 50) untouched ≡ (ok tt, confirmed)
unfolding write encode write_register read_back send_read address read_inverter decode
    write_inverter slot_for
writes_fifty = refl

write-IsConfirmed_example :
    IsConfirmed plain_builtins level (λ n. some obedient) noon (whole 50) untouched confirmed
write-IsConfirmed_example =
    write-IsConfirmed plain_builtins level (λ n. some obedient) noon (whole 50) untouched confirmed
      writes_fifty

abbrev quiet_thrice : List Happening
quiet_thrice = refresh (ok ((3, 50) ∷ [])) ∷ refresh (ok []) ∷ refresh (ok []) ∷ []

settings_registers-asked_example :
    contains
      (settings_registers (3 ∷ 22 ∷ []) (happen_all (3 ∷ 22 ∷ []) quiet_thrice unknown_yet).misses)
      22
    ≡ false
unfolding lookup
settings_registers-asked_example = settings_registers-asked (3 ∷ 22 ∷ []) quiet_thrice 22 refl

-- A raw write of the register that needs no confirmation.
abbrev raw_write : WriteCall
raw_write = record {
  serial = 88 ∷ [];
  to_datalogger = false;
  register = 3;
  value = number_value (pos 50);
  confirm = false;
}

write_raw-IsSent_example :
    IsSent
      (λ n. [])
      raw_write
      (some obedient)
      0
      []
      (log_of (write_raw (λ n. []) (λ serial state. map_logged (some obedient)) raw_write (0, [])))
write_raw-IsSent_example = write_raw-IsSent (λ n. []) raw_write (λ serial n. some obedient) 0 []

-- Two connections of one datalogger, the second one seen last, and one that is closed.
abbrev seen_at : ℕ → Bool → Session
seen_at second closed = record (make_session false) {
  datalogger_serial = some (88 ∷ []);
  last_seen = some (noon second);
  closed = closed;
}

abbrev connections : List Session
connections = seen_at 1 false ∷ seen_at 5 false ∷ seen_at 9 true ∷ []

abbrev second_later : Datetime → Datetime → Bool
second_later a b = ltb b.second a.second

second_later-IsOrder : IsOrder second_later
second_later-IsOrder = record {
  asymmetric = λ a b h. ground arith;
  transitive = λ a b c h k. ground arith;
}

session_for_second : session_for second_later connections (88 ∷ []) ≡ some (seen_at 5 false)
unfolding session_for is_candidate latest seen_later
session_for_second = refl

session_for-IsLatest_example :
    IsLatest second_later connections (88 ∷ []) (session_for second_later connections (88 ∷ []))
session_for-IsLatest_example =
    session_for-IsLatest second_later connections (88 ∷ []) second_later-IsOrder
