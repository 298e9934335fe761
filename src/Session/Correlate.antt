-- ===== src/Session/Correlate.antt =====
-- Matching a reply to the command that waits for it, and keeping those that nothing waits for.
use growatt_datalogger.Base.{
  Bool, List, Option, [], contains, drop, false, filterb, if◌then◌else◌, leb, length, ltb, none,
  some, true, ℕ, ◌&&◌, ◌++◌, ◌+◌, ◌-◌, ◌==◌, ◌∷◌,
}
use growatt_datalogger.Commands.Reply.{CommandResponse, parse_command_response}
use growatt_datalogger.Python.{Datetime, Result, err, ok, record_error}
use growatt_datalogger.Records.Frame.{Frame, function, sequence}
use growatt_datalogger.Records.Function.{inverter_write, inverter_write_multi}
use growatt_datalogger.Session.State.{
  Action, Env, Future, Outstanding, Session, Unsolicited, done, failed, lift, modify, pending,
  raising, resolved, ◌>>=◌,
}

-- `response.register in (None, outstanding.register)`
abbrev pub same_register : Option ℕ → ℕ → Bool
same_register none register = true
same_register (some r) register = r == register

abbrev pub answers_register : Option ℕ → ℕ → Bool
answers_register none register = false
answers_register (some r) register = register == r

-- Whether the reply, from a frame with this function code and this sequence number, resolves the
-- outstanding command. A reply on our sequence number for another register does not.
unfoldable pub correlates : Outstanding → ℕ → ℕ → CommandResponse → Bool
correlates o code number response =
    o.function == code
    && (if o.sequence == number && same_register response.register o.register
        then true
        else if o.sequence == number
        then false
        else answers_register response.register o.register)

unfoldable pub is_awaited : Option Outstanding → ℕ → ℕ → CommandResponse → Bool
unfolding correlates
is_awaited none code number response = false
is_awaited (some o) code number response = correlates o code number response

abbrev pub max_unsolicited : ℕ
max_unsolicited = 32

-- `deque(maxlen=32).append(entry)`
unfoldable pub deque_append : List Unsolicited → Unsolicited → List Unsolicited
deque_append entries entry =
    let all = entries ++ entry ∷ [] in drop (length all - max_unsolicited) all

-- `future.set_result` unless it is done
abbrev pub resolve : Future → CommandResponse → Future
resolve pending response = resolved response
resolve (resolved r) response = resolved r
resolve (failed e) response = failed e

unfoldable pub note_unsolicited : Datetime → CommandResponse → Session → Session
unfolding deque_append
note_unsolicited now response s =
    let seen = s.unsolicited_seen + 1 in
    record s {
      unsolicited_seen = seen;
      unsolicited =
          deque_append s.unsolicited (record { ordinal = seen; at = now; response = response });
    }

unfoldable pub match_response : Datetime → ℕ → ℕ → CommandResponse → Session → Session
unfolding note_unsolicited is_awaited
match_response now code number response s =
    if is_awaited s.outstanding code number response
    then record s { future = resolve s.future response }
    else note_unsolicited now response s

unfoldable pub handle_parsed : Env → Frame → Result CommandResponse → Action (Unit {0})
handle_parsed env frame (ok response) = do
  code ← lift (function frame)
  modify (match_response env.now code (sequence frame) response)
handle_parsed env frame (err record_error) = done
handle_parsed env frame (err e) = raising e

-- `_handle_command_response`: a reply that cannot be parsed is logged and dropped
unfoldable pub handle_command_response : Env → Frame → Action (Unit {0})
unfolding handle_parsed match_response
handle_command_response env frame = handle_parsed env frame (parse_command_response frame)

-- `Unsolicited.covers`
unfoldable pub covers_from : Option ℕ → Option ℕ → ℕ → Bool
covers_from none end register = false
covers_from (some start) none register = start == register
covers_from (some start) (some end) register = leb start register && leb register end

unfoldable pub covers : Unsolicited → ℕ → Bool
unfolding covers_from
covers entry register = covers_from entry.response.register entry.response.end_register register

unfoldable pub is_write : Unsolicited → Bool
is_write entry = contains (inverter_write ∷ inverter_write_multi ∷ []) entry.response.function

unfoldable pub written_elsewhere : Session → ℕ → ℕ → List Unsolicited
unfolding covers is_write
written_elsewhere s register since =
    filterb (λ entry. ltb since entry.ordinal && is_write entry && covers entry register)
      s.unsolicited
