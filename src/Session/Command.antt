-- ===== src/Session/Command.antt =====
-- Commands: the sequence numbers, the two halves of `send_command` around its wait for the reply,
-- the clock update, and the end of the connection.
use growatt_datalogger.Base.{
  Bool, Option, false, if◌then◌else◌, leb, none, some, suc, true, zero, ℕ, ◌%◌, ◌+◌, ◌-◌, ◌==◌,
  ◌||◌,
}
use growatt_datalogger.Commands.Build.{Command, build, response_function, set_time}
use growatt_datalogger.Commands.Reply.{CommandResponse, is_ok}
use growatt_datalogger.Python.{
  Result, Str, command_timeout, connection_error, err, ok, runtime_error,
}
use growatt_datalogger.Session.State.{
  Action, Env, Future, Outstanding, Session, TimeTask, World, absent, branch, failed, finished,
  gets, lift, modify, pending, pure, raising, resolved, running, send, sequence_ceiling,
  sequence_floor, ◌>>=◌, ◌>>◌,
}

abbrev pub span : ℕ
span = sequence_ceiling - sequence_floor

-- `(a - b) % n`, which is not negative where `a - b` is
unfoldable pub sub_mod : ℕ → ℕ → ℕ → ℕ
sub_mod a b n = if leb b a then (a - b) % n else (n - (b - a) % n) % n

unfoldable pub next_number : ℕ → ℕ
unfolding sub_mod
next_number number = sequence_floor + sub_mod (number + 1) sequence_floor span

abbrev pub is_taken : Option Outstanding → ℕ → Bool
is_taken none number = false
is_taken (some o) number = o.sequence == number

-- The loop of `_next_sequence`, by its rounds left; its result is the counter's new value.
unfoldable pub free_number : ℕ → Option Outstanding → ℕ → Result ℕ
unfolding next_number
free_number zero o number = err runtime_error
free_number (suc rounds) o number =
    let tried = next_number number in
    let later = free_number rounds o tried in if is_taken o tried then later else ok tried

unfoldable pub advance : ℕ → Action ℕ
advance number = do modify (λ s. record s { sequence = number }); pure number

unfoldable pub next_sequence : Action ℕ
unfolding free_number advance
next_sequence = do
  s ← gets (λ s. s)
  number ← lift (free_number span s.outstanding s.sequence)
  advance number

-- `finally: self._outstanding = None`, when what it stands around has raised
unfoldable pub clear_raised {ℓ} : {A : Type ℓ} → Result A × World → Result A × World
clear_raised (ok a, w) = (ok a, w)
clear_raised (err e, w) = (err e, record w { session = record w.session { outstanding = none } })

abbrev pub clearing {ℓ} : {A : Type ℓ} → Action A → Action A
clearing m w = clear_raised (m w)

abbrev pub await_reply : Command → ℕ → Session → Session
await_reply command number s = record s {
  outstanding = some (record {
    function = response_function command;
    sequence = number;
    register = command.register;
  });
  future = pending;
}

-- `_send_once` up to its wait
unfoldable pub send_once : Env → Command → ℕ → Action (Unit {0})
unfolding next_sequence clear_raised send
send_once env command version = do
  number ← next_sequence
  modify (await_reply command number)
  clearing (do content ← lift (build command number version); send env content)

unfoldable pub start_identified : Env → Command → Option ℕ → Option Str → Action (Unit {0})
start_identified env command (some version) (some serial) = send_once env command version
start_identified env command (some version) none = raising connection_error
start_identified env command none serial = raising connection_error

-- `send_command` up to its wait for the reply; the caller holds the command lock
unfoldable pub begin_command : Env → Command → Action (Unit {0})
unfolding start_identified send_once
begin_command env command = do
  s ← gets (λ s. s)
  branch s.closed (raising connection_error)
      (start_identified env command s.protocol s.datalogger_serial)

-- What the wait ends with: the reply, the exception that was put into the future, or a timeout.
abbrev pub outcome : Future → Result CommandResponse
outcome pending = err command_timeout
outcome (resolved response) = ok response
outcome (failed e) = err e

-- `send_command` from the end of its wait on
unfoldable pub end_command : Action CommandResponse
end_command = do
  s ← gets (λ s. s)
  modify (λ s. record s { outstanding = none })
  lift (outcome s.future)

-- `_push_time` after its pause; whatever is raised is logged and dropped
unfoldable pub quiet_failure : Result (Unit {0}) × World → Result (Unit {0}) × World
quiet_failure (ok u, w) = (ok u, w)
quiet_failure (err e, w) = (ok tt, record w { session = record w.session { time_task = finished } })

abbrev pub end_task : Session → Session
end_task s = record s { time_task = finished }

unfoldable pub begin_set_time : Env → Option Str → Option ℕ → Action (Unit {0})
begin_set_time env (some serial) (some version) = do
  command ← lift (set_time serial version env.now)
  begin_command env command
begin_set_time env (some serial) none = modify end_task
begin_set_time env none version = modify end_task

unfoldable pub push_attempt : Env → Action (Unit {0})
unfolding begin_set_time
push_attempt env = do
  s ← gets (λ s. s)
  branch s.closed (modify end_task) (begin_set_time env s.datalogger_serial s.protocol)

unfoldable pub begin_push_time : Env → Action (Unit {0})
unfolding begin_set_time push_attempt quiet_failure
begin_push_time env w = quiet_failure (push_attempt env w)

-- `_push_time` once its command has ended
unfoldable pub end_push_time : Result CommandResponse → Session → Session
end_push_time (err e) s = record s { time_task = finished }
end_push_time (ok response) s = record s {
  time_synced = s.time_synced || is_ok response;
  time_task = finished;
}

abbrev fail_pending : Future → Future
fail_pending pending = failed connection_error
fail_pending (resolved response) = resolved response
fail_pending (failed e) = failed e

unfoldable pub fail_outstanding : Option Outstanding → Future → Future
fail_outstanding none future = future
fail_outstanding (some o) future = fail_pending future

cancelled : TimeTask → TimeTask
cancelled absent = absent
cancelled running = finished
cancelled finished = finished

-- `close`
unfoldable pub close : Session → Session
unfolding fail_outstanding cancelled
close s = record s {
  closed = true;
  time_task = cancelled s.time_task;
  future = fail_outstanding s.outstanding s.future;
  outstanding = none;
}
