-- ===== src/Settings/Confirm.antt =====
-- Changing a window and confirming a write.
use growatt_datalogger.Base.{
  [], arith, contains, if◌then◌else◌, none, suc, true, zero, ℕ, ◌+◌, ◌<◌, ◌==◌, ◌∙◌, ◌∷◌, ◌≡◌,
}
use growatt_datalogger.Commands.Build.{ℤ, pos}
use growatt_datalogger.Commands.Reply.{CommandResponse}
use growatt_datalogger.Python.{Result, Str, command_timeout, err, ok}
use growatt_datalogger.Registers.Slots.{TimeSlot, slot_registers}
use growatt_datalogger.Settings.Channel.{Channel, address, send_read}
use growatt_datalogger.Settings.Write.{after_attempt, index_of, read_back, reading, substituted}

abbrev other_or : ℕ → ℕ → ℤ → ℕ → ℤ
other_or position register value old = if position == register then value else pos old

-- For a register of a charge or discharge window: with that register's word replaced among the
-- three that were read, the register has the new value and the two others keep their words.
pub substituted-window :
    (slot : TimeSlot) (register : ℕ) (value : ℤ) (a b c : ℕ)
    → contains (slot_registers slot) register ≡ true
    → substituted slot register value (a ∷ b ∷ c ∷ [])
      ≡ other_or slot.start register value a
        ∷ other_or (slot.start + 1) register value b
        ∷ other_or (slot.start + 2) register value c
        ∷ []
unfolding substituted index_of
substituted-window slot register value a b c h = ground arith

module _ {S : Type 0} (channel : Channel S) (int_of : Str → Result ℕ) (register : ℕ) where
  -- The channel knows its datalogger, and the read of the register ends so.
  pub record Ends (s : S) (result : Result CommandResponse) (after : S) : Type 0 where
    pub serial : Str
    pub version : ℕ
    pub known : address channel s ≡ (ok (serial, version), s)
    pub ends : send_read channel serial version register none s ≡ (result, after)

  -- So many reads time out one after the other.
  pub data TimesOut : ℕ → S → S → Type 0 where
    never : {s : S} → TimesOut 0 s s
    again :
        {n : ℕ} {s t u : S} → Ends s (err command_timeout) t → TimesOut n t u → TimesOut (suc n) s u

  attempt :
      (more : ℕ) (s after : S) (result : Result CommandResponse)
      → Ends s result after
      → read_back channel int_of register (suc more) s
        ≡ after_attempt channel int_of (read_back channel int_of register more) (result, after)
  unfolding read_back
  attempt more s after result e = rw (e.known, e.ends)

  -- Where reads of a register time out, fewer times than there are attempts, and the next one is
  -- answered, reading it back gives what that answer says, and nothing is sent after it.
  pub read_back-answered :
      (n attempts : ℕ) (s t after : S) (response : CommandResponse)
      → n < attempts
      → TimesOut n s t
      → Ends t (ok response) after
      → read_back channel int_of register attempts s ≡ (reading int_of response, after)
  unfolding after_attempt
  read_back-answered n zero s t after response h q e = absurd (omega arith)
  read_back-answered zero (suc more) s t after response h never e =
      attempt more s after (ok response) e
  read_back-answered (suc n) (suc more) s t after response h (again {t = mid} first later) e =
      attempt more s mid (err command_timeout) first
      ∙ read_back-answered n more mid t after response (omega arith) later e
