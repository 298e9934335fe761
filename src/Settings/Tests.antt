-- ===== src/Settings/Tests.antt =====
-- Instances of the theorems on settings.
use growatt_datalogger.Base.{
  All, List, Option, [], ap₂, arith, contains, if◌then◌else◌, le→leb, none, refl, some, suc, true,
  zero, ℕ, ◌++◌, ◌+◌, ◌-◌, ◌<◌, ◌==◌, ◌∷◌, ◌≡◌, ◌≤◌,
}
use growatt_datalogger.Base.Dict.{lookup}
use growatt_datalogger.Commands.Build.{Command, command_of, pos, read_inverter}
use growatt_datalogger.Commands.Reply.{CommandResponse, integer, response_of}
use growatt_datalogger.Python.{
  value_error, Result, Str, command_timeout, err, from_bytes, ok, slice, word_bytes,
}
use growatt_datalogger.Python.Roundtrip.{from_bytes-word_bytes, to_bytes-word_bytes}
use growatt_datalogger.Registers.Slots.{grid_first}
use growatt_datalogger.Settings.Channel.{Channel, address, read_registers, send_read}
use growatt_datalogger.Settings.Confirm.{Ends, again, never, read_back-answered, substituted-window}
use growatt_datalogger.Settings.Cover.{IsRun, covered, read_ranges-covered}
use growatt_datalogger.Settings.Device.{values_of, words_from}
use growatt_datalogger.Settings.Ranges.{group_from, read_ranges, sorted_add, sorted_set}
use growatt_datalogger.Settings.Served.{Serves}
use growatt_datalogger.Settings.Whole.{read_registers-whole}
use growatt_datalogger.Settings.Write.{read_back, reading, substituted}

read_ranges-covered_example :
    All (IsRun 45) (read_ranges 45 8 (1100 ∷ 3 ∷ 1092 ∷ 3 ∷ []))
    × ((r : ℕ)
        → contains (1100 ∷ 3 ∷ 1092 ∷ 3 ∷ []) r ≡ true
        → covered r (read_ranges 45 8 (1100 ∷ 3 ∷ 1092 ∷ 3 ∷ [])) ≡ true)
read_ranges-covered_example = read_ranges-covered 45 8 (1100 ∷ 3 ∷ 1092 ∷ 3 ∷ []) (omega arith)

two_runs : read_ranges 45 8 (1100 ∷ 3 ∷ 1092 ∷ 3 ∷ []) ≡ (3, 3) ∷ (1092, 1100) ∷ []
unfolding read_ranges sorted_set sorted_add group_from
two_runs = refl

substituted-window_example :
    substituted
      (record { schedule = grid_first; number = 1; start = 1080 })
      1081
      (pos 9)
      (5 ∷ 6 ∷ 1 ∷ [])
    ≡ pos 5 ∷ pos 9 ∷ pos 1 ∷ []
substituted-window_example =
    substituted-window (record { schedule = grid_first; number = 1; start = 1080 }) 1081 (pos 9) 5 6
      1 refl

-- A datalogger that lets so many commands time out, and then answers.
abbrev answer : CommandResponse
answer = record (response_of 0x05 3) { value = integer 50; values = 50 ∷ [] }

abbrev busy_send : Command → ℕ → Result CommandResponse × ℕ
busy_send command zero = (ok answer, zero)
busy_send command (suc n) = (err command_timeout, n)

abbrev busy : Channel ℕ
busy = record {
  datalogger_serial = λ s. some (88 ∷ []);
  protocol = λ s. some 2;
  send_command = busy_send;
}

abbrev no_int : Str → Result ℕ
no_int s = err value_error

busy-times_out : Ends busy no_int 3 1 (err command_timeout) 0
unfolding address send_read
busy-times_out = record {
  serial = 88 ∷ [];
  version = 2;
  known = refl;
  ends = unfold read_inverter in refl;
}

busy-answers : Ends busy no_int 3 0 (ok answer) 0
unfolding address send_read
busy-answers = record {
  serial = 88 ∷ [];
  version = 2;
  known = refl;
  ends = unfold read_inverter in refl;
}

read_back-answered_example : read_back busy no_int 3 3 1 ≡ (reading no_int answer, 0)
read_back-answered_example =
    read_back-answered busy no_int 3 1 3 1 0 0 answer (omega arith) (again busy-times_out never)
      busy-answers

-- A device with two registers, which answers a read of what it has.
abbrev small_device : ℕ → Option ℕ
small_device r = if r == 3 then some 50 else if r == 22 then some 7 else none

abbrev asked_start : Command → ℕ
asked_start command = from_bytes (slice command.body 10 12)

abbrev asked_end : Command → ℕ
asked_end command = from_bytes (slice command.body 12 14)

abbrev told : Command → CommandResponse
told command = record (response_of 0x05 0) {
  values =
      values_of (
        words_from small_device (asked_start command)
          (asked_end command + 1 - asked_start command));
}

abbrev telling : Channel ℕ
telling = record {
  datalogger_serial = λ s. some (88 ∷ []);
  protocol = λ s. some 2;
  send_command = λ command s. (ok (told command), s + 1);
}

abbrev reading_command : ℕ → ℕ → Command
reading_command start end =
    command_of 5 start (88 ∷ 0 ∷ 0 ∷ 0 ∷ 0 ∷ 0 ∷ 0 ∷ 0 ∷ 0 ∷ 0 ∷ word_bytes start ++ word_bytes end)

reading_command_built :
    (start end : ℕ)
    → start ≤ end
    → end < 65536
    → read_inverter (88 ∷ []) 2 start (some end) ≡ ok (reading_command start end)
unfolding read_inverter
reading_command_built start end h b =
    rw (le→leb start end h, to_bytes-word_bytes start (omega arith), to_bytes-word_bytes end b) refl

told_values :
    (start end : ℕ)
    → (told (reading_command start end)).values
      ≡ values_of (words_from small_device start (end + 1 - start))
unfolding slice
told_values start end =
    let first : asked_start (reading_command start end) ≡ start = from_bytes-word_bytes start in
    let last : asked_end (reading_command start end) ≡ end = from_bytes-word_bytes end in
    ap₂ (λ (x y : ℕ). values_of (words_from small_device x (y + 1 - x))) first last

telling-Serves : Serves telling small_device
unfolding address send_read
telling-Serves = record {
  serial = 88 ∷ [];
  version = 2;
  known = λ s. refl;
  serves = λ start end s h b. (
    told (reading_command start end),
    s + 1,
    rw (reading_command_built start end h b, send_read) refl,
    told_values start end,
  );
}

read_registers-whole_example :
    (words : List (ℕ × ℕ)) × (after : ℕ) × (read_registers telling (22 ∷ 3 ∷ 4 ∷ []) 0
      ≡ (ok words, after))
    × ((r : ℕ) → lookup r words ≡ (if contains (22 ∷ 3 ∷ 4 ∷ []) r then small_device r else none))
read_registers-whole_example =
    read_registers-whole telling small_device (22 ∷ 3 ∷ 4 ∷ []) 0 telling-Serves (omega arith)
