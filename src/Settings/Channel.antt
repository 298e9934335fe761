-- ===== src/Settings/Channel.antt =====
-- Settings read and written over a channel: the helpers of settings.py.
--
-- The channel is any that takes commands: a state, what it says of the datalogger, and
-- `send_command`, which changes the state and returns or raises.
use growatt_datalogger.Base.{
  Bool, List, Option, [], contains, false, filterb, if◌then◌else◌, leb, length, none, some, true, ℕ,
  ◌&&◌, ◌+◌, ◌-◌, ◌==◌, ◌∷◌,
}
use growatt_datalogger.Base.Dict.{insert, update}
use growatt_datalogger.Commands.Build.{Command, read_inverter}
use growatt_datalogger.Commands.Reply.{CommandResponse}
use growatt_datalogger.Python.{
  Error, Result, Str, command_timeout, connection_error, err, ok, value_error,
}
use growatt_datalogger.Records.Frame.{protocol}
use growatt_datalogger.Records.Parse.{registers, words}
use growatt_datalogger.Settings.Ranges.{max_range_gap, max_range_span, read_ranges, sorted_set}

pub record Channel (S : Type 0) : Type 0 where
  pub datalogger_serial : S → Option Str
  pub protocol : S → Option ℕ
  pub send_command : Command → S → Result CommandResponse × S

-- An action over the channel's state, which may raise.
abbrev pub Task {ℓ} : Type 0 → Type ℓ → Type ℓ
Task S A = S → Result A × S

abbrev pub resume {ℓ κ} :
    {S : Type 0} {A : Type ℓ} {B : Type κ} → Result A × S → (A → Task S B) → Result B × S
resume (ok a, s) f = f a s
resume (err e, s) f = (err e, s)

infixl 5 ◌>>=◌
abbrev pub ◌>>=◌ {ℓ κ} :
    {S : Type 0} {A : Type ℓ} {B : Type κ} → Task S A → (A → Task S B) → Task S B
◌>>=◌ m f s = resume (m s) f

abbrev pub address_of : Option Str → Option ℕ → Result (Str × ℕ)
address_of none protocol = err value_error
address_of (some serial) none = err value_error
address_of (some serial) (some protocol) = ok (serial, protocol)

-- `except (CommandTimeout, ConnectionError)`
abbrev is_unanswered : Error → Bool
is_unanswered command_timeout = true
is_unanswered connection_error = true
is_unanswered e = false

-- `{start + offset: word for offset, word in enumerate(words)}`
unfoldable pub number_words : ℕ → List ℕ → List (ℕ × ℕ)
number_words start [] = []
number_words start (word ∷ words) = (start, word) ∷ number_words (start + 1) words

unfoldable pub span_words : ℕ → ℕ → List ℕ → Option (List (ℕ × ℕ))
unfolding number_words
span_words start end words =
    if length words == end + 1 - start then some (number_words start words) else none

unfoldable pub words_or_raise : ℕ → ℕ → Result CommandResponse → Result (Option (List (ℕ × ℕ)))
unfolding span_words
words_or_raise start end (ok response) = ok (span_words start end response.values)
words_or_raise start end (err e) = if is_unanswered e then ok none else err e

-- `values.update({r: word for r, word in got.items() if r in wanted})`
unfoldable pub update_wanted : List ℕ → List (ℕ × ℕ) → List (ℕ × ℕ) → List (ℕ × ℕ)
update_wanted wanted values [] = values
update_wanted wanted values ((r, word) ∷ got) =
    update_wanted wanted (if contains wanted r then insert r word values else values) got

unfoldable pub update_option : List (ℕ × ℕ) → Option (List (ℕ × ℕ)) → List (ℕ × ℕ)
update_option values none = values
update_option values (some got) = update values got

module _ {S : Type 0} (channel : Channel S) where
  -- `_address`
  unfoldable pub address : Task S (Str × ℕ)
  address s = (address_of (channel.datalogger_serial s) (channel.protocol s), s)

  unfoldable pub send_read : Str → ℕ → ℕ → Option ℕ → Task S CommandResponse
  send_read serial protocol start end s = elim (read_inverter serial protocol start end) [
    | ok command ↦ channel.send_command command s
    | err e ↦ (err e, s)
  ]

  abbrev caught : ℕ → ℕ → Result CommandResponse × S → Result (Option (List (ℕ × ℕ))) × S
  caught start end (result, s) = (words_or_raise start end result, s)

  -- `_read_span`; the address is taken outside the `try`
  unfoldable pub read_span : ℕ → ℕ → Task S (Option (List (ℕ × ℕ)))
  unfolding address send_read words_or_raise
  read_span start end = do
    (serial, protocol) ← address
    λ s. caught start end (send_read serial protocol start (some end) s)

  -- the single reads that a run which came back empty falls back to
  unfoldable pub read_singles : List ℕ → List (ℕ × ℕ) → Task S (List (ℕ × ℕ))
  unfolding read_span update_option
  read_singles [] values = λ s. (ok values, s)
  read_singles (r ∷ rs) values = do
    single ← read_span r r
    read_singles rs (update_option values single)

  unfoldable pub after_span :
      List ℕ → ℕ → ℕ → List (ℕ × ℕ) → Option (List (ℕ × ℕ)) → Task S (List (ℕ × ℕ))
  unfolding read_singles update_wanted
  after_span wanted start end values none =
      if start == end
      then (λ s. (ok values, s))
      else read_singles (filterb (λ r. leb start r && leb r end) wanted) values
  after_span wanted start end values (some got) = λ s. (ok (update_wanted wanted values got), s)

  unfoldable pub read_runs : List ℕ → List (ℕ × ℕ) → List (ℕ × ℕ) → Task S (List (ℕ × ℕ))
  unfolding read_span after_span
  read_runs wanted [] values = λ s. (ok values, s)
  read_runs wanted ((start, end) ∷ runs) values = do
    got ← read_span start end
    later ← after_span wanted start end values got
    read_runs wanted runs later

  -- `read_registers`
  unfoldable pub read_registers : List ℕ → Task S (List (ℕ × ℕ))
  unfolding read_runs
  read_registers registers =
      let wanted = sorted_set registers in
      read_runs wanted (read_ranges max_range_span max_range_gap wanted) []
