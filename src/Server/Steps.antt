-- ===== src/Server/Steps.antt =====
-- What may happen to a connection, one step at a time, and which side acknowledges after any of it.
use growatt_datalogger.Base.{List, Option, none, refl, some, subst, sym, ℕ, ◌∙◌, ◌≡◌}
use growatt_datalogger.Commands.Build.{Command, build, set_time}
use growatt_datalogger.Commands.Reply.{CommandResponse}
use growatt_datalogger.Framing.{feed}
use growatt_datalogger.Python.{Bytes, Result, Str, connection_error, err, ok}
use growatt_datalogger.Relay.{Pumped, Relay, Upstream, begin_pump, pump_round}
use growatt_datalogger.Server.Keeps.{
  Keeps, Keeps-bind, Keeps-branch, Keeps-gets, Keeps-handle_all, Keeps-lift, Keeps-modify,
  Keeps-raising, Keeps-send, suppressed,
}
use growatt_datalogger.Server.Link.{Link, handle_fed, process_chunk, relay_chunk}
use growatt_datalogger.Server.Pumping.{Exclusive-begin_pump, Exclusive-pump_round}
use growatt_datalogger.Server.Takeover.{Exclusive, IsExclusive, relay_chunk_lem}
use growatt_datalogger.Session.Command.{
  advance, await_reply, begin_command, begin_push_time, begin_set_time, clear_raised, clearing,
  end_command, end_push_time, end_task, free_number, next_sequence, outcome, push_attempt,
  quiet_failure, send_once, span, start_identified,
}
use growatt_datalogger.Session.State.{Action, Env, World, gets, lift, modify, raising, ◌>>=◌}

Keeps-clear_raised :
    {A : Type 0} (out : Result A × World) → suppressed (clear_raised out).1 ≡ suppressed out.1
unfolding clear_raised
Keeps-clear_raised (ok a, w) = refl
Keeps-clear_raised (err e, w) = refl

Keeps-advance :
    (number : Result ℕ) (w : World) → suppressed ((lift number >>= advance) w).1 ≡ suppressed w
unfolding advance
Keeps-advance (ok number) w = refl
Keeps-advance (err e) w = refl

Keeps-next_sequence : Keeps next_sequence
unfolding next_sequence
Keeps-next_sequence = record {
  at = λ w. Keeps-advance (free_number span w.session.outstanding w.session.sequence) w;
}

Keeps-clearing : {A : Type 0} (m : Action A) → Keeps m → Keeps (clearing m)
Keeps-clearing m p = record { at = λ w. Keeps-clear_raised (m w) ∙ p.at w }

Keeps-send_once :
    (env : Env) (command : Command) (version : ℕ) → Keeps (send_once env command version)
unfolding send_once
Keeps-send_once env command version = Keeps-bind next_sequence _ Keeps-next_sequence (λ number.
    Keeps-bind (modify (await_reply command number)) _
      (Keeps-modify (await_reply command number) (λ s. refl))
      (λ u. Keeps-clearing _ (
        Keeps-bind (lift (build command number version)) _
          (Keeps-lift (build command number version)) (λ content. Keeps-send env content))))

Keeps-start_identified :
    (env : Env) (command : Command) (version : Option ℕ) (serial : Option Str)
    → Keeps (start_identified env command version serial)
unfolding start_identified
Keeps-start_identified env command (some version) (some serial) =
    Keeps-send_once env command version
Keeps-start_identified env command (some version) none = Keeps-raising connection_error
Keeps-start_identified env command none serial = Keeps-raising connection_error

pub Keeps-begin_command : (env : Env) (command : Command) → Keeps (begin_command env command)
unfolding begin_command
Keeps-begin_command env command = Keeps-bind (gets (λ s. s)) _ (Keeps-gets (λ s. s)) (λ s.
    Keeps-branch s.closed (raising connection_error) _ (Keeps-raising connection_error)
      (Keeps-start_identified env command s.protocol s.datalogger_serial))

pub Keeps-end_command : Keeps end_command
unfolding end_command
Keeps-end_command = Keeps-bind (gets (λ s. s)) _ (Keeps-gets (λ s. s)) (λ s.
    Keeps-bind (modify (λ s. record s { outstanding = none })) _
      (Keeps-modify (λ s. record s { outstanding = none }) (λ s. refl))
      (λ u. Keeps-lift (outcome s.future)))

abbrev pub end_push : Result CommandResponse → World → World
end_push result w = record w { session = end_push_time result w.session }

pub Keeps-end_push :
    (result : Result CommandResponse) (w : World) → suppressed (end_push result w) ≡ suppressed w
unfolding end_push_time
Keeps-end_push (ok response) w = refl
Keeps-end_push (err e) w = refl

Keeps-begin_set_time :
    (env : Env) (serial : Option Str) (version : Option ℕ)
    → Keeps (begin_set_time env serial version)
unfolding begin_set_time
Keeps-begin_set_time env (some serial) (some version) =
    Keeps-bind (lift (set_time serial version env.now)) (begin_command env)
      (Keeps-lift (set_time serial version env.now)) (Keeps-begin_command env)
Keeps-begin_set_time env (some serial) none = Keeps-modify end_task (λ s. refl)
Keeps-begin_set_time env none version = Keeps-modify end_task (λ s. refl)

Keeps-quiet_failure :
    (out : Result (Unit {0}) × World) → suppressed (quiet_failure out).1 ≡ suppressed out.1
unfolding quiet_failure
Keeps-quiet_failure (ok u, w) = refl
Keeps-quiet_failure (err e, w) = refl

pub Keeps-begin_push_time : (env : Env) → Keeps (begin_push_time env)
unfolding begin_push_time push_attempt
Keeps-begin_push_time env = record {
  at = λ w.
      Keeps-quiet_failure (push_attempt env w)
      ∙ (Keeps-bind (gets (λ s. s)) _ (Keeps-gets (λ s. s)) (λ s.
            Keeps-branch s.closed (modify end_task) _ (Keeps-modify end_task (λ s. refl))
              (Keeps-begin_set_time env s.datalogger_serial s.protocol))).at
          w;
}

abbrev pub with_relay : Link → Relay → Link
with_relay link r = record link { relay = some r }

abbrev pub in_world : Link → World → Link
in_world link w = record link { world = w }

-- A chunk that is not empty is read and handled; a caller's command is sent, and later ends with
-- its reply, with an exception or at its timeout; the clock update likewise; the pump makes a step.
pub data Move : Link → Link → Type 0 where
  read :
      (env : ℕ → Env) (n : ℕ) (up : Upstream) (content : Bytes) (link : Link)
      → Move link (process_chunk env n content (relay_chunk up content link)).1
  begin :
      (env : Env) (command : Command) (link : Link)
      → Move link (in_world link (begin_command env command link.world).1)
  finish : (link : Link) → Move link (in_world link (end_command link.world).1)
  begin_push :
      (env : Env) (link : Link) → Move link (in_world link (begin_push_time env link.world).1)
  finish_push :
      (result : Result CommandResponse) (link : Link)
      → Move link (in_world link (end_push result link.world))
  schedule :
      (link : Link) (r : Relay)
      → link.relay ≡ some r
      → Move link (with_relay link (record r { pump = begin_pump r.pump }))
  pump :
      (p : Pumped) (link : Link) (r : Relay)
      → link.relay ≡ some r
      → Move link (with_relay link (pump_round p r))

pub data Moves : Link → Link → Type 0 where
  stay : (link : Link) → Moves link link
  step : (a b c : Link) → Move a b → Moves b c → Moves a c

Exclusive_step :
    (link : Link) (w : World)
    → suppressed w ≡ suppressed link.world
    → IsExclusive link
    → IsExclusive (in_world link w)
Exclusive_step link w h x = record {
  exclusive = subst (λ q. Exclusive link.relay q) (sym h) x.exclusive;
}

pub fed_suppressed :
    (env : ℕ → Env) (n : ℕ) (fed : Result (List Bytes)) (w : World)
    → suppressed (handle_fed env n fed w).1 ≡ suppressed w
fed_suppressed env n (ok frames) w = (Keeps-handle_all env n frames).at w
fed_suppressed env n (err e) w = refl

process_chunk-suppressed :
    (env : ℕ → Env) (n : ℕ) (content : Bytes) (link : Link)
    → suppressed (process_chunk env n content link).1.world ≡ suppressed link.world
unfolding process_chunk
process_chunk-suppressed env n content link =
    fed_suppressed env n (feed link.framer content).0 link.world

process_chunk-IsExclusive :
    (env : ℕ → Env) (n : ℕ) (content : Bytes) (link : Link)
    → IsExclusive link
    → IsExclusive (process_chunk env n content link).1
unfolding process_chunk
process_chunk-IsExclusive env n content link x = record {
  exclusive =
      subst (λ q. Exclusive link.relay q)
        (sym (fed_suppressed env n (feed link.framer content).0 link.world)) x.exclusive;
}

pub Move-IsExclusive : (a b : Link) → Move a b → IsExclusive a → IsExclusive b
Move-IsExclusive _ _ (read env n up content link) x =
    process_chunk-IsExclusive env n content (relay_chunk up content link)
      (relay_chunk_lem up content link.framer link.world link.relay x.exclusive).0
Move-IsExclusive _ _ (begin env command link) x =
    Exclusive_step link _ ((Keeps-begin_command env command).at link.world) x
Move-IsExclusive _ _ (finish link) x = Exclusive_step link _ (Keeps-end_command.at link.world) x
Move-IsExclusive _ _ (begin_push env link) x =
    Exclusive_step link _ ((Keeps-begin_push_time env).at link.world) x
Move-IsExclusive _ _ (finish_push result link) x =
    Exclusive_step link _ (Keeps-end_push result link.world) x
Move-IsExclusive _ _ (schedule link r h) x = record {
  exclusive =
      Exclusive-begin_pump r (suppressed link.world)
        (subst (λ relay. Exclusive relay (suppressed link.world)) h x.exclusive);
}
Move-IsExclusive _ _ (pump p link r h) x = record {
  exclusive =
      Exclusive-pump_round p r (suppressed link.world)
        (subst (λ relay. Exclusive relay (suppressed link.world)) h x.exclusive);
}

pub Moves-IsExclusive : (a b : Link) → Moves a b → IsExclusive a → IsExclusive b
Moves-IsExclusive _ _ (stay link) x = x
Moves-IsExclusive _ _ (step a b c m ms) x = Moves-IsExclusive b c ms (Move-IsExclusive a b m x)
