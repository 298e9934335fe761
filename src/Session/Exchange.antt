-- ===== src/Session/Exchange.antt =====
-- A command from its sending to its reply: `send_command` on both sides of its wait.
use growatt_datalogger.Base.{
  List, [], ap, ap₂, false, inl, inr, none, refl, some, true, ℕ, ◌++◌, ◌∙◌, ◌∷◌, ◌≡◌,
}
use growatt_datalogger.Commands.Build.{Command, build, response_function}
use growatt_datalogger.Commands.Reply.{CommandResponse}
use growatt_datalogger.Commands.Sent.{IsSent, build-IsSent}
use growatt_datalogger.Python.{Bytes, Datetime, Result, Str, ok}
use growatt_datalogger.Session.Command.{
  begin_command, clear_raised, end_command, free_number, next_sequence, send_once, span,
  start_identified,
}
use growatt_datalogger.Session.Correlate.{match_response}
use growatt_datalogger.Session.Matching.{Answering, match_response-decides}
use growatt_datalogger.Session.Numbers.{IsFree, free_number-IsFree}
use growatt_datalogger.Session.State.{Env, Event, Session, World, pending, resolved, send, sent}

-- The session while a command waits for its reply.
abbrev pub awaiting : Session → Command → ℕ → Session
awaiting s command number = record s {
  sequence = number;
  outstanding = some (record {
    function = response_function command;
    sequence = number;
    register = command.register;
  });
  future = pending;
}

send_once-eq :
    (env : Env) (command : Command) (version number : ℕ) (content : Bytes) (w : World)
    → free_number span w.session.outstanding w.session.sequence ≡ ok number
    → build command number version ≡ ok content
    → env.deliver content ≡ true
    → send_once env command version w ≡ (
      ok tt,
      record {
        session = awaiting w.session command number;
        events = w.events ++ sent content ∷ [];
      },
    )
unfolding send_once next_sequence clear_raised send
send_once-eq env command version number content w hn hb hd = rw (hn) (rw (hb) (rw (hd)))

begin_command-start :
    (env : Env) (command : Command) (w : World)
    → w.session.closed ≡ false
    → begin_command env command w
      ≡ start_identified env command w.session.protocol w.session.datalogger_serial w
unfolding begin_command
begin_command-start env command w h = rw (h)

start_identified-known :
    (env : Env) (command : Command) (version : ℕ) (serial : Str)
    → start_identified env command (some version) (some serial) ≡ send_once env command version
unfolding start_identified
start_identified-known env command version serial = refl

begin_command-send_once :
    (env : Env) (command : Command) (version : ℕ) (serial : Str) (w : World)
    → w.session.closed ≡ false
    → w.session.protocol ≡ some version
    → w.session.datalogger_serial ≡ some serial
    → begin_command env command w ≡ send_once env command version w
begin_command-send_once env command version serial w hc hp hs =
    begin_command-start env command w hc
    ∙ ap₂ (λ p s. start_identified env command p s w) hp hs
    ∙ ap (λ m. m w) (start_identified-known env command version serial)

-- What the session looks like, and what has gone out, once a command is on its way.
pub record IsOnItsWay (command : Command) (version : ℕ) (w : World)
    (after : Result (Unit {0}) × World) : Type 0 where
  pub number : ℕ
  pub content : Bytes
  pub numbered : IsFree w.session.outstanding number
  pub carries : IsSent command number version content
  pub begun : after ≡ (
    ok tt,
    record { session = awaiting w.session command number; events = w.events ++ sent content ∷ [] },
  )

-- Sending a command over a session that is not closed, knows its protocol version and its
-- datalogger and has a transport that takes all bytes, where the command can be built under any
-- number: a sequence number of the commands' range is found that is not the one outstanding,
-- exactly one frame goes out, it carries the command under that number, and the session then
-- waits for its reply.
pub begin_command-IsOnItsWay :
    (env : Env) (command : Command) (version : ℕ) (serial : Str) (w : World)
    → w.session.closed ≡ false
    → w.session.protocol ≡ some version
    → w.session.datalogger_serial ≡ some serial
    → ((n : ℕ) → (content : Bytes) × (build command n version ≡ ok content))
    → ((content : Bytes) → env.deliver content ≡ true)
    → IsOnItsWay command version w (begin_command env command w)
begin_command-IsOnItsWay env command version serial w hc hp hs built delivered =
    let (number, found, free) = free_number-IsFree 32764 w.session.outstanding w.session.sequence in
    let (content, made) = built number in
    record {
      number = number;
      content = content;
      numbered = free;
      carries = build-IsSent command number version content made;
      begun =
          begin_command-send_once env command version serial w hc hp hs
          ∙ send_once-eq env command version number content w found made (delivered content);
    }

-- A command that waits, and gets a reply that answers it, returns that reply, and nothing is
-- outstanding any more.
pub end_command-answered :
    (now : Datetime) (s : Session) (command : Command) (number code seq : ℕ) (r : CommandResponse)
    (events : List Event)
    → Answering
        (record {
          function = response_function command;
          sequence = number;
          register = command.register;
        })
        code
        seq
        r
    → end_command (record {
      session = match_response now code seq r (awaiting s command number);
      events = events;
    })
      ≡ (
        ok r,
        record {
          session = record (awaiting s command number) { outstanding = none; future = resolved r };
          events = events;
        },
      )
unfolding end_command
end_command-answered now s command number code seq r events h =
    elim (match_response-decides now code seq r (awaiting s command number) _ refl refl) [
      | inl (a, e) ↦ rw (e)
      | inr (n, e) ↦ absurd (n h)
    ]
