-- ===== src/Session/Quiet.antt =====
-- Actions that send nothing, one rule for each way to build an action.
use growatt_datalogger.Base.{
  Bool, List, Option, [], ap, append-nil, append_assoc, ap₂, false, none, refl, some, sym, true, ℕ,
  ◌++◌, ◌==◌, ◌∙◌, ◌∷◌, ◌≡◌,
}
use growatt_datalogger.Commands.Reply.{CommandResponse, parse_command_response}
use growatt_datalogger.Python.{Bytes, Error, Result, Str, err, handler_error, ok, record_error}
use growatt_datalogger.Records.Frame.{Frame, function, protocol, sequence}
use growatt_datalogger.Records.Function.{announce, buffered}
use growatt_datalogger.Records.Parse.{RecordPayload, parse_register_record}
use growatt_datalogger.Session.Correlate.{handle_command_response, handle_parsed, match_response}
use growatt_datalogger.Session.Handle.{
  adopt_serials, decode, decode_parsed, deliver_payload, hand_on, identify, note_decode_error,
  note_encrypted, note_unknown, schedule_time_sync,
}
use growatt_datalogger.Session.State.{
  Action, Env, Event, Record, Session, World, branch, continue, done, emit, gets, identified, lift,
  modify, raising, recorded, sent, time_task_created, ◌>>=◌,
}

abbrev sends_of : Event → List Bytes → List Bytes
sends_of (sent content) rest = content ∷ rest
sends_of (identified d i p) rest = rest
sends_of (recorded r) rest = rest
sends_of time_task_created rest = rest

-- The bytes among the events, in order.
abbrev pub sends : List Event → List Bytes
sends [] = []
sends (e ∷ events) = sends_of e (sends events)

pub sends-append : (xs ys : List Event) → sends (xs ++ ys) ≡ sends xs ++ sends ys
sends-append [] ys = refl
sends-append (sent c ∷ xs) ys = rw (sends-append xs ys)
sends-append (identified d i p ∷ xs) ys = sends-append xs ys
sends-append (recorded r ∷ xs) ys = sends-append xs ys
sends-append (time_task_created ∷ xs) ys = sends-append xs ys

-- What has been done stands in the world already; `more` comes behind it, and sends nothing.
pub record After (before : List Event) (after : List Event) : Type 0 where
  pub more : List Event
  pub appended : after ≡ before ++ more
  pub silent : sends more ≡ []

pub After-refl : (events : List Event) → After events events
After-refl events = record { more = []; appended = sym (append-nil events); silent = refl }

pub After-trans : {a b c : List Event} → After a b → After b c → After a c
After-trans {a} p q = record {
  more = p.more ++ q.more;
  appended =
      q.appended ∙ ap (λ (t : List Event). t ++ q.more) p.appended ∙ append_assoc a p.more q.more;
  silent = sends-append p.more q.more ∙ ap₂ (λ (x y : List Bytes). x ++ y) p.silent q.silent;
}

pub record Quiet {ℓ} {A : Type ℓ} (m : Action A) : Type ℓ where
  pub at : (w : World) → After w.events (m w).1.events

pub Quiet-modify : (f : Session → Session) → Quiet (modify f)
Quiet-modify f = record { at = λ w. After-refl w.events }

pub Quiet-done : Quiet done
Quiet-done = record { at = λ w. After-refl w.events }

pub Quiet-emit : (e : Event) → sends (e ∷ []) ≡ [] → Quiet (emit e)
Quiet-emit e h = record { at = λ w. record { more = e ∷ []; appended = refl; silent = h } }

module _ {ℓ} {A : Type ℓ} where
  pub Quiet-lift : (r : Result A) → Quiet (lift r)
  Quiet-lift r = record { at = λ w. After-refl w.events }

  pub Quiet-raising : (e : Error) → Quiet (raising {A = A} e)
  Quiet-raising e = record { at = λ w. After-refl w.events }

  pub Quiet-gets : (f : Session → A) → Quiet (gets f)
  Quiet-gets f = record { at = λ w. After-refl w.events }

  pub Quiet-branch : (b : Bool) (m n : Action A) → Quiet m → Quiet n → Quiet (branch b m n)
  Quiet-branch true m n p q = p
  Quiet-branch false m n p q = q

module _ {ℓ κ} {A : Type ℓ} {B : Type κ} where
  After-continue :
      (before : List Event) (out : Result A × World) (f : A → Action B)
      → After before out.1.events
      → ((a : A) → Quiet (f a))
      → After before (continue out f).1.events
  After-continue before (ok a, w) f p q = After-trans p ((q a).at w)
  After-continue before (err e, w) f p q = p

  pub Quiet-bind :
      (m : Action A) (f : A → Action B) → Quiet m → ((a : A) → Quiet (f a)) → Quiet (m >>= f)
  Quiet-bind m f p q = record { at = λ w. After-continue w.events (m w) f (p.at w) q }

pub Quiet-note_unknown : (code : ℕ) → Quiet (note_unknown code)
unfolding note_unknown
Quiet-note_unknown code = record { at = λ w. After-refl w.events }

pub ruleset quiet_rules = (
  Quiet-modify, Quiet-done, Quiet-emit, Quiet-lift, Quiet-raising, Quiet-gets, Quiet-branch,
  Quiet-bind,
)

Quiet-handle_parsed :
    (env : Env) (frame : Frame) (r : Result CommandResponse) → Quiet (handle_parsed env frame r)
unfolding handle_parsed
Quiet-handle_parsed env frame (ok response) =
    Quiet-bind (lift (function frame))
      (λ code. modify (match_response env.now code (sequence frame) response))
      (Quiet-lift (function frame))
      (λ code. Quiet-modify (match_response env.now code (sequence frame) response))
Quiet-handle_parsed env frame (err record_error) = Quiet-done
Quiet-handle_parsed env frame (err e) = Quiet-raising e

-- Matching a reply sends nothing, so that no reply is ever acknowledged.
pub Quiet-handle_command_response :
    (env : Env) (frame : Frame) → Quiet (handle_command_response env frame)
unfolding handle_command_response
Quiet-handle_command_response env frame =
    Quiet-handle_parsed env frame (parse_command_response frame)

Quiet-note_encrypted : Quiet note_encrypted
Quiet-note_encrypted = record { at = λ w. After-refl w.events }

pub Quiet-note_decode_error : (frame : Frame) → Quiet (note_decode_error frame)
unfolding note_decode_error
Quiet-note_decode_error frame = record {
  at = λ w.
      After-continue w.events _ _ (After-refl w.events)
        (λ c. Quiet-branch c note_encrypted done Quiet-note_encrypted Quiet-done);
}

Quiet-identify :
    (env : Env) (callback : Option (Str → Str → ℕ → Bool)) (payload : RecordPayload) (version : ℕ)
    → Quiet (identify env callback payload version)
unfolding identify
Quiet-identify env none payload version = Quiet-done
Quiet-identify env (some callback) payload version =
    Quiet-bind (emit (identified payload.datalogger_serial payload.inverter_serial version))
      (λ u.
        branch (callback payload.datalogger_serial payload.inverter_serial version) done
          (raising handler_error))
      (Quiet-emit _ refl)
      (λ u.
        Quiet-branch (callback payload.datalogger_serial payload.inverter_serial version) done
          (raising handler_error) Quiet-done (Quiet-raising handler_error))

Quiet-hand_on : (callback : Option (Record → Bool)) (r : Record) → Quiet (hand_on callback r)
unfolding hand_on
Quiet-hand_on none r = Quiet-done
Quiet-hand_on (some callback) r = Quiet-emit (recorded r) refl

Quiet-deliver_payload :
    (env : Env) (frame : Frame) (payload : RecordPayload)
    → Quiet (deliver_payload env frame payload)
unfolding deliver_payload
Quiet-deliver_payload env frame payload =
    Quiet-bind (modify (adopt_serials payload)) _ (Quiet-modify (adopt_serials payload)) (λ u.
      Quiet-bind (lift (function frame)) _ (Quiet-lift (function frame)) (λ code.
        Quiet-bind (lift (protocol frame)) _ (Quiet-lift (protocol frame)) (λ version.
          Quiet-bind _ _
            (Quiet-branch (code == announce) _ _
              (Quiet-identify env env.on_identify payload version) Quiet-done)
            (λ v.
              Quiet-hand_on env.on_record
                (record { frame = frame; payload = payload; buffered = code == buffered })))))

Quiet-decode_parsed :
    (env : Env) (frame : Frame) (r : Result RecordPayload) → Quiet (decode_parsed env frame r)
unfolding decode_parsed
Quiet-decode_parsed env frame (ok payload) = Quiet-deliver_payload env frame payload
Quiet-decode_parsed env frame (err record_error) = Quiet-note_decode_error frame
Quiet-decode_parsed env frame (err e) = Quiet-raising e

-- Neither does decoding, whether it succeeds or not and whatever the callbacks do.
pub Quiet-decode : (env : Env) (frame : Frame) → Quiet (decode env frame)
unfolding decode
Quiet-decode env frame = Quiet-decode_parsed env frame (parse_register_record frame)

pub Quiet-schedule_time_sync : Quiet schedule_time_sync
unfolding schedule_time_sync
Quiet-schedule_time_sync = search (quiet_rules)
