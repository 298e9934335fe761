-- ===== src/Settings/Write.antt =====
-- `read_slot`, `write_register` and `read_back` of settings.py.
use growatt_datalogger.Base.{
  Bool, List, Option, [], false, if◌then◌else◌, map, none, set, some, suc, zero, ℕ, ◌+◌, ◌==◌, ◌∷◌,
}
use growatt_datalogger.Base.Dict.{lookup}
use growatt_datalogger.Commands.Build.{Command, ℤ, pos, write_inverter, write_inverter_range}
use growatt_datalogger.Commands.Reply.{CommandResponse, integer, nothing, text}
use growatt_datalogger.Python.{Result, Str, command_timeout, connection_error, err, key_error, ok}
use growatt_datalogger.Records.Frame.{protocol}
use growatt_datalogger.Records.Parse.{words}
use growatt_datalogger.Registers.Slots.{TimeSlot, slot_for, slot_registers}
use growatt_datalogger.Settings.Channel.{Channel, Task, address, read_span, send_read, ◌>>=◌}

abbrev unsupported : ℕ
unsupported = 1

abbrev or_key_error : Option ℕ → Result ℕ
or_key_error none = err key_error
or_key_error (some word) = ok word

-- `[words[register] for register in registers]`
unfoldable pub words_at : List (ℕ × ℕ) → List ℕ → Result (List ℕ)
words_at words [] = ok []
words_at words (r ∷ rs) = elim (or_key_error (lookup r words)) [
  | ok word ↦ elim (words_at words rs) [ ok rest ↦ ok (word ∷ rest) | err e ↦ err e ]
  | err e ↦ err e
]

unfoldable pub slot_words : TimeSlot → Option (List (ℕ × ℕ)) → Result (Option (List ℕ))
unfolding words_at
slot_words slot none = ok none
slot_words slot (some words) = elim (words_at words (slot_registers slot)) [
  | ok values ↦ ok (some values)
  | err e ↦ err e
]

-- `slot.registers.index(register)`, of one of its registers
unfoldable pub index_of : List ℕ → ℕ → ℕ
index_of [] register = 0
index_of (r ∷ rs) register =
    let later = index_of rs register in if r == register then 0 else suc later

-- the window with one of its words replaced
unfoldable pub substituted : TimeSlot → ℕ → ℤ → List ℕ → List ℤ
unfolding index_of
substituted slot register value values =
    set (map pos values) (index_of (slot_registers slot) register) value

abbrev is_unsupported : Option ℕ → Bool
is_unsupported none = false
is_unsupported (some result) = result == unsupported

-- `int(response.value)` where there is a value, a text being left to `int_of`
unfoldable pub reading : (Str → Result ℕ) → CommandResponse → Result (Option ℕ)
reading int_of response = if response.empty then ok none else elim response.value [
  | nothing ↦ ok none
  | integer n ↦ ok (some n)
  | text content ↦ elim (int_of content) [ ok n ↦ ok (some n) | err e ↦ err e ]
]

module _ {S : Type 0} (channel : Channel S) where
  -- A call that may raise before anything is sent.
  abbrev pub call {ℓ} : {A : Type ℓ} → Result A → Task S A
  call r s = (r, s)

  unfoldable pub read_slot : TimeSlot → Task S (Option (List ℕ))
  unfolding slot_words
  read_slot slot = do
    words ← read_span channel slot.start (slot.start + 2)
    call (slot_words slot words)

  -- what a range write ends with: where the firmware has none, the single write
  unfoldable pub after_range : Command → CommandResponse → Task S CommandResponse
  after_range single response =
      if is_unsupported response.result
      then channel.send_command single
      else (λ s. (ok response, s))

  unfoldable pub write_window :
      Str → ℕ → Command → TimeSlot → ℕ → ℤ → Option (List ℕ) → Task S CommandResponse
  unfolding after_range substituted
  write_window serial protocol single slot register value none = channel.send_command single
  write_window serial protocol single slot register value (some values) = do
    ranged ←
        call
          (write_inverter_range serial protocol slot.start (substituted slot register value values))
    response ← channel.send_command ranged
    after_range single response

  unfoldable pub write_in : Str → ℕ → Command → Option TimeSlot → ℕ → ℤ → Task S CommandResponse
  unfolding write_window read_slot
  write_in serial protocol single none register value = channel.send_command single
  write_in serial protocol single (some slot) register value = do
    values ← read_slot slot
    write_window serial protocol single slot register value values

  -- `write_register`
  unfoldable pub write_register : ℕ → ℤ → Bool → Task S CommandResponse
  unfolding write_in
  write_register register value whole_slot = do
    (serial, protocol) ← address channel
    single ← call (write_inverter serial protocol register value)
    write_in serial protocol single (if whole_slot then slot_for register else none) register value

  -- One attempt's outcome: an answer, no answer, or what ends the reading.
  unfoldable pub after_attempt :
      (Str → Result ℕ) → Task S (Option ℕ) → Result CommandResponse × S → Result (Option ℕ) × S
  unfolding reading
  after_attempt int_of later (ok response, s) = (reading int_of response, s)
  after_attempt int_of later (err command_timeout, s) = later s
  after_attempt int_of later (err connection_error, s) = (ok none, s)
  after_attempt int_of later (err e, s) = (err e, s)

  -- `read_back`, by the attempts left: as many as there are delays, the waiting apart
  unfoldable pub read_back : (Str → Result ℕ) → ℕ → ℕ → Task S (Option ℕ)
  unfolding after_attempt
  read_back int_of register zero = λ s. (ok none, s)
  read_back int_of register (suc attempts) = do
    (serial, protocol) ← address channel
    λ s.
        after_attempt int_of (read_back int_of register attempts)
          (send_read channel serial protocol register none s)
