-- ===== src/Session/Ended.antt =====
-- What becomes of commands when the connection ends.
use growatt_datalogger.Base.{Bool, List, Option, [], ap, none, refl, some, true, ℕ, ◌∙◌, ◌∷◌, ◌≡◌}
use growatt_datalogger.Commands.Build.{Command}
use growatt_datalogger.Commands.Reply.{CommandResponse}
use growatt_datalogger.Python.{Datetime, Result, command_timeout, connection_error, err, ok}
use growatt_datalogger.Session.Command.{
  begin_command, begin_push_time, begin_set_time, close, end_command, end_task, fail_outstanding,
  outcome, push_attempt, quiet_failure,
}
use growatt_datalogger.Session.Correlate.{is_awaited, match_response, note_unsolicited}
use growatt_datalogger.Session.State.{
  branch, modify, Env, Event, Future, Outstanding, Session, World, failed, pending, resolved,
}

-- The replies that arrive one after the other, each with the time, the function code and the
-- sequence number of its frame.
abbrev pub replied : List (Datetime × ℕ × ℕ × CommandResponse) → Session → Session
replied [] s = s
replied ((now, code, number, response) ∷ replies) s =
    replied replies (match_response now code number response s)

-- What a caller that waits is to get when the connection ends: the answer that is there, or else
-- ConnectionError. Without an outstanding command and without an answer
-- there is nothing to end the wait but its timeout.
abbrev pub ending : Option Outstanding → Future → Result CommandResponse
ending o (resolved response) = ok response
ending o (failed e) = err e
ending (some o) pending = err connection_error
ending none pending = err command_timeout

match_response-idle :
    (now : Datetime) (code number : ℕ) (response : CommandResponse) (s : Session)
    → s.outstanding ≡ none
    → match_response now code number response s ≡ note_unsolicited now response s
unfolding match_response is_awaited note_unsolicited
match_response-idle now code number response s h = rw (h)

-- Nothing is outstanding, and replies change neither that nor what a caller waits for.
record IsIdle (s after : Session) : Type 0 where
  outstanding : after.outstanding ≡ none
  closed : after.closed ≡ s.closed
  future : after.future ≡ s.future

note_unsolicited-outstanding :
    (now : Datetime) (response : CommandResponse) (s : Session)
    → (note_unsolicited now response s).outstanding ≡ s.outstanding
unfolding note_unsolicited
note_unsolicited-outstanding now response s = refl

note_unsolicited-closed :
    (now : Datetime) (response : CommandResponse) (s : Session)
    → (note_unsolicited now response s).closed ≡ s.closed
unfolding note_unsolicited
note_unsolicited-closed now response s = refl

note_unsolicited-future :
    (now : Datetime) (response : CommandResponse) (s : Session)
    → (note_unsolicited now response s).future ≡ s.future
unfolding note_unsolicited
note_unsolicited-future now response s = refl

replied-IsIdle :
    (replies : List (Datetime × ℕ × ℕ × CommandResponse)) (s : Session)
    → s.outstanding ≡ none
    → IsIdle s (replied replies s)
replied-IsIdle [] s h = record { outstanding = h; closed = refl; future = refl }
replied-IsIdle ((now, code, number, response) ∷ replies) s h =
    let unheard = match_response-idle now code number response s h in
    let later =
      replied-IsIdle replies (note_unsolicited now response s)
        (note_unsolicited-outstanding now response s ∙ h) in
    rw (unheard) (record {
      outstanding = later.outstanding;
      closed = later.closed ∙ note_unsolicited-closed now response s;
      future = later.future ∙ note_unsolicited-future now response s;
    })

outcome-fail_outstanding :
    (o : Option Outstanding) (future : Future)
    → outcome (fail_outstanding o future) ≡ ending o future
unfolding fail_outstanding
outcome-fail_outstanding none pending = refl
outcome-fail_outstanding none (resolved response) = refl
outcome-fail_outstanding none (failed e) = refl
outcome-fail_outstanding (some o) pending = refl
outcome-fail_outstanding (some o) (resolved response) = refl
outcome-fail_outstanding (some o) (failed e) = refl

outcome-close : (s : Session) → outcome (close s).future ≡ ending s.outstanding s.future
unfolding close
outcome-close s = outcome-fail_outstanding s.outstanding s.future

close-outstanding : (s : Session) → (close s).outstanding ≡ none
unfolding close
close-outstanding s = refl

close-closed : (s : Session) → (close s).closed ≡ true
unfolding close
close-closed s = refl

-- The connection has ended, and these replies have come since.
abbrev pub ended : Session → List (Datetime × ℕ × ℕ × CommandResponse) → List Event → World
ended s replies events = record { session = replied replies (close s); events = events }

abbrev pub on_session : (Session → Session) → World → World
on_session f w = record w { session = f w.session }

begin_command-closed :
    (env : Env) (command : Command) (w : World)
    → w.session.closed ≡ true
    → begin_command env command w ≡ (err connection_error, w)
unfolding begin_command
begin_command-closed env command w h = rw (h) refl

begin_push_time-closed :
    (env : Env) (w : World)
    → w.session.closed ≡ true
    → begin_push_time env w ≡ (ok tt, on_session end_task w)
unfolding begin_push_time push_attempt quiet_failure
begin_push_time-closed env w h =
    ap
      (λ (b : Bool). quiet_failure (
        branch b (modify end_task)
          (begin_set_time env w.session.datalogger_serial w.session.protocol) w))
      h

-- Whatever the state of a session is when it is closed, and whatever replies are matched
-- afterwards: a command that is begun raises ConnectionError, sends nothing and changes nothing,
-- a clock update sends nothing and ends, and a command that is outstanding and unresolved at the
-- close ends with ConnectionError. One that already has a reply or an exception ends with that.
pub close-ends :
    (env : Env) (command : Command) (s : Session)
    (replies : List (Datetime × ℕ × ℕ × CommandResponse)) (events : List Event)
    → (begin_command env command (ended s replies events)
        ≡ (err connection_error, ended s replies events))
      × (begin_push_time env (ended s replies events)
          ≡ (ok tt, on_session end_task (ended s replies events)))
      × ((end_command (ended s replies events)).0 ≡ ending s.outstanding s.future)
unfolding end_command
close-ends env command s replies events =
    let idle = replied-IsIdle replies (close s) (close-outstanding s) in
    let shut : (replied replies (close s)).closed ≡ true = idle.closed ∙ close-closed s in
    (
      begin_command-closed env command (ended s replies events) shut,
      begin_push_time-closed env (ended s replies events) shut,
      ap outcome idle.future ∙ outcome-close s,
    )
