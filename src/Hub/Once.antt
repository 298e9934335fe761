-- ===== src/Hub/Once.antt =====
-- How often a raw write of a register is sent.
use growatt_datalogger.Base.{
  some, true, Bool-cases, leb, sym, ap, List, Option, inl, inr, none, refl, ℕ, ◌∷◌, ◌≡◌, ◌⊎◌,
}
use growatt_datalogger.Commands.Build.{ℤ, serial_field, or_start, Command, read_inverter}
use growatt_datalogger.Commands.Reply.{is_ok, CommandResponse}
use growatt_datalogger.Hub.Services.{
  WriteCall, is_allowed, raw_command, known_protocol, after_raw, write_raw_over, write_raw,
  send_raw, explained_error,
}
use growatt_datalogger.Python.{
  >>=-eq-ok, guard, to_bytes, value_error, Result, Result-cases, Str, err, ok,
}
use growatt_datalogger.Records.Frame.{protocol}
use growatt_datalogger.Records.Function.{inverter_read}
use growatt_datalogger.Settings.Channel.{Channel, address, address_of, resume, send_read}
use growatt_datalogger.Settings.Explain.{after_probe, Explanation, explain_rejection, probe}

abbrev noted {ℓ} :
    {R : Type ℓ} {S : Type 0} → Command → List Command → R × S → R × (S × List Command)
noted command log (result, s) = (result, (s, command ∷ log))

-- The channel that keeps the commands sent over it, the last one first.
unfoldable pub logged : {S : Type 0} → Channel S → Channel (S × List Command)
logged channel = record {
  datalogger_serial = λ state. channel.datalogger_serial state.0;
  protocol = λ state. channel.protocol state.0;
  send_command = λ command state. noted command state.1 (channel.send_command command state.0);
}

abbrev pub map_logged : {S : Type 0} → Option (Channel S) → Option (Channel (S × List Command))
map_logged none = none
map_logged (some channel) = some (logged channel)

abbrev pub log_of {ℓ} : {R : Type ℓ} {S : Type 0} → R × (S × List Command) → List Command
log_of state = state.1.1

-- At most one read was sent.
abbrev IsProbed : List Command → List Command → Type 0
IsProbed before after =
    (after ≡ before)
    ⊎ ((probe : Command) × (after ≡ probe ∷ before) × (probe.function ≡ inverter_read))

function_or_zero : Result Command → ℕ
function_or_zero (ok command) = command.function
function_or_zero (err e) = 0

read_inverter-function :
    (serial : Str) (protocol start : ℕ) (end : Option ℕ) (command : Command)
    → read_inverter serial protocol start end ≡ ok command
    → command.function ≡ inverter_read
unfolding read_inverter function_or_zero
read_inverter-function serial protocol start end command e =
    let (u, f, g) = >>=-eq-ok (guard (leb start (or_start start end)) value_error) _ e in
    let (field, h, i) = >>=-eq-ok (serial_field serial protocol) _ g in
    let (first, j, k) = >>=-eq-ok (to_bytes start) _ i in
    let (second, l, m) = >>=-eq-ok (to_bytes (or_start start end)) _ k in
    ap function_or_zero (sym m)

module _ {S : Type 0} (channel : Channel S) where
  noted_log :
      (command : Command) (log : List Command) (out : Result CommandResponse × S)
      → log_of (noted command log out) ≡ command ∷ log
  noted_log command log (result, s) = refl

  send_read-IsProbed :
      (serial : Str) (version register : ℕ) (s : S) (log : List Command)
      → IsProbed log (log_of (send_read (logged channel) serial version register none (s, log)))
  unfolding send_read logged
  send_read-IsProbed serial version register s log =
      elim (Result-cases (read_inverter serial version register none)) [
        | inl (command, e) ↦
            rw (log_of, e)
              (inr (
                command,
                noted_log command log (channel.send_command command s),
                read_inverter-function _ _ _ _ command e,
              ))
        | inr (error, e) ↦ rw (log_of, e) (inl refl)
      ]

  after_probe-log :
      (out : Result CommandResponse × (S × List Command)) → log_of (after_probe out) ≡ log_of out
  unfolding after_probe
  after_probe-log (ok probe, s) = refl
  after_probe-log (err e, s) = refl

  probe-IsProbed :
      (register : ℕ) (s : S) (log : List Command) (serial : Option Str) (protocol : Option ℕ)
      → IsProbed log (
          log_of (
            resume
              (address_of serial protocol, (s, log))
              (λ a. send_read (logged channel) a.0 a.1 register none)))
  probe-IsProbed register s log none version = inl refl
  probe-IsProbed register s log (some serial) none = inl refl
  probe-IsProbed register s log (some serial) (some version) =
      send_read-IsProbed serial version register s log

  explain_rejection-IsProbed :
      (register : ℕ) (s : S) (log : List Command)
      → IsProbed log (log_of (explain_rejection (logged channel) register (s, log)))
  unfolding explain_rejection probe address logged
  explain_rejection-IsProbed register s log =
      rw (after_probe-log (probe (logged channel) register (s, log)))
        (probe-IsProbed register s log (channel.datalogger_serial s) (channel.protocol s))

-- The call was allowed, and its command sent once and nothing else, but for one read at most.
pub record IsWrittenOnce (str : ℤ → Str) (call : WriteCall) (version : ℕ)
    (before after : List Command) : Type 0 where
  pub allowed : is_allowed call ≡ true
  pub command : Command
  pub requested : raw_command str version call ≡ ok command
  pub sent : IsProbed (command ∷ before) after

module _ {S : Type 0} (str : ℤ → Str) (call : WriteCall) where
  -- What may have been sent over the channel that there was, if any.
  abbrev pub IsSent : Option (Channel S) → S → List Command → List Command → Type 0
  IsSent none s before after = after ≡ before
  IsSent (some channel) s before after =
      (after ≡ before) ⊎ IsWrittenOnce str call (known_protocol (channel.protocol s)) before after

  explained_error-log :
      (out : Result Explanation × (S × List Command)) → log_of (explained_error out) ≡ log_of out
  explained_error-log (ok explanation, s) = refl
  explained_error-log (err e, s) = refl

  after_raw-IsProbed :
      (channel : Channel S) (command : Command) (log : List Command)
      (out : Result CommandResponse × S)
      → IsProbed (command ∷ log) (log_of (after_raw call (logged channel) (noted command log out)))
  unfolding after_raw
  after_raw-IsProbed channel command log (err e, s) = inl refl
  after_raw-IsProbed channel command log (ok response, s) = elim (Bool-cases (is_ok response)) [
    | inl e ↦ rw (log_of, e) (inl refl)
    | inr e ↦ elim (Bool-cases call.to_datalogger) [
      | inl f ↦ rw (log_of, e, f) (inl refl)
      | inr f ↦
          rw
            (
              log_of,
              e,
              f,
              explained_error-log
                  (explain_rejection (logged channel) call.register (s, command ∷ log)),
            )
            (explain_rejection-IsProbed channel call.register s (command ∷ log))
    ]
  ]

  write_raw_over-IsSent :
      (o : Option (Channel S)) (s : S) (log : List Command)
      → IsSent o s log (log_of (write_raw_over str call (map_logged o) (s, log)))
  unfolding write_raw_over send_raw logged
  write_raw_over-IsSent none s log = refl
  write_raw_over-IsSent (some channel) s log = elim (Bool-cases (is_allowed call)) [
    | inl e ↦ elim (Result-cases (raw_command str (known_protocol (channel.protocol s)) call)) [
      | inl (command, f) ↦
          rw (log_of, e, f)
            (inr record {
              allowed = e;
              command = command;
              requested = f;
              sent = after_raw-IsProbed channel command log (channel.send_command command s);
            })
      | inr (error, f) ↦ rw (log_of, e, f) (inl refl)
    ]
    | inr e ↦ rw (log_of, e) (inl refl)
  ]

  -- Whatever the datalogger does with its commands, a raw write of a register over the connection
  -- that there is has either sent nothing, or was confirmed by its caller or is of a register
  -- that needs no confirmation, and has sent its own command once, followed by one read of the
  -- inverter at most. It is not repeated, whether or not an answer comes. Without a connection
  -- nothing is sent.
  pub write_raw-IsSent :
      (open_channel : Str → S → Option (Channel S)) (s : S) (log : List Command)
      → IsSent (open_channel call.serial s) s log (
          log_of (
            write_raw str (λ serial state. map_logged (open_channel serial state.0)) call (s, log)))
  unfolding write_raw
  write_raw-IsSent open_channel s log = write_raw_over-IsSent (open_channel call.serial s) s log
