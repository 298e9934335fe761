-- ===== src/Server/Keeps.antt =====
-- Handling frames and sending commands never changes whether the session suppresses its replies.
use growatt_datalogger.Base.{
  Bool, Bool-cases, List, Option, [], contains, false, inl, inr, none, not, refl, some, suc, true,
  ℕ, ◌&&◌, ◌+◌, ◌==◌, ◌||◌, ◌∙◌, ◌∷◌, ◌≡◌,
}
use growatt_datalogger.Commands.Reply.{CommandResponse, parse_command_response}
use growatt_datalogger.Crc.{check_crc}
use growatt_datalogger.Python.{
  Bytes, Datetime, Error, Result, Str, err, handler_error, ok, record_error,
}
use growatt_datalogger.Records.Frame.{
  Frame, build_ack, build_ping_echo, function, has_crc, protocol, sequence,
}
use growatt_datalogger.Records.Function.{
  announce, buffered, command_response_functions, ignored, meter_functions, ping,
  register_record_functions, session_key,
}
use growatt_datalogger.Records.Parse.{RecordPayload, parse_register_record}
use growatt_datalogger.Server.Link.{handle_all}
use growatt_datalogger.Session.Correlate.{
  handle_command_response, handle_parsed, is_awaited, match_response, note_unsolicited,
}
use growatt_datalogger.Session.Handle.{
  acknowledge, adopt_serials, answer_data, check_frame_crc, decode, decode_parsed, deliver_payload,
  dispatch, hand_on, handle_frame, identify, is_running, note_decode_error, note_encrypted,
  note_unknown, reply, schedule_time_sync,
}
use growatt_datalogger.Session.State.{
  Action, Env, Event, Record, Session, Stats, World, branch, continue, done, emit, gets, identified,
  lift, modify, modify_stats, raising, recorded, running, send, time_task_created, ◌>>=◌, ◌>>◌,
}

abbrev pub suppressed : World → Bool
suppressed w = w.session.suppress_replies

pub record Keeps {ℓ} {A : Type ℓ} (m : Action A) : Type ℓ where
  pub at : (w : World) → suppressed (m w).1 ≡ suppressed w

pub Keeps-modify :
    (f : Session → Session)
    → ((s : Session) → (f s).suppress_replies ≡ s.suppress_replies)
    → Keeps (modify f)
Keeps-modify f h = record { at = λ w. h w.session }

pub Keeps-modify_stats : (f : Stats → Stats) → Keeps (modify_stats f)
Keeps-modify_stats f = record { at = λ w. refl }

pub Keeps-done : Keeps done
Keeps-done = record { at = λ w. refl }

pub Keeps-emit : (e : Event) → Keeps (emit e)
Keeps-emit e = record { at = λ w. refl }

module _ {ℓ} {A : Type ℓ} where
  pub Keeps-lift : (r : Result A) → Keeps (lift r)
  Keeps-lift r = record { at = λ w. refl }

  pub Keeps-raising : (e : Error) → Keeps (raising {A = A} e)
  Keeps-raising e = record { at = λ w. refl }

  pub Keeps-gets : (f : Session → A) → Keeps (gets f)
  Keeps-gets f = record { at = λ w. refl }

  pub Keeps-branch : (b : Bool) (m n : Action A) → Keeps m → Keeps n → Keeps (branch b m n)
  Keeps-branch true m n p q = p
  Keeps-branch false m n p q = q

module _ {ℓ κ} {A : Type ℓ} {B : Type κ} where
  pub Keeps-continue :
      (out : Result A × World) (f : A → Action B)
      → ((a : A) → Keeps (f a))
      → suppressed (continue out f).1 ≡ suppressed out.1
  Keeps-continue (ok a, w) f q = (q a).at w
  Keeps-continue (err e, w) f q = refl

  pub Keeps-bind :
      (m : Action A) (f : A → Action B) → Keeps m → ((a : A) → Keeps (f a)) → Keeps (m >>= f)
  Keeps-bind m f p q = record { at = λ w. Keeps-continue (m w) f q ∙ p.at w }

pub Keeps-send : (env : Env) (content : Bytes) → Keeps (send env content)
unfolding send
Keeps-send env content = record {
  at = λ w. elim (Bool-cases (env.deliver content)) [ inl h ↦ rw (h) refl | inr h ↦ rw (h) refl ];
}

pub Keeps-reply : (env : Env) (content : Bytes) → Keeps (reply env content)
unfolding reply
Keeps-reply env content =
    Keeps-bind (gets (λ s. s.suppress_replies)) _ (Keeps-gets (λ s. s.suppress_replies)) (λ quiet.
      Keeps-branch quiet done _ Keeps-done (
        Keeps-bind (send env content) _ (Keeps-send env content)
          (λ u. Keeps-modify_stats (λ t. record t { acknowledged = t.acknowledged + 1 }))))

pub Keeps-acknowledge : (env : Env) (frame : Frame) → Keeps (acknowledge env frame)
unfolding acknowledge
Keeps-acknowledge env frame =
    Keeps-bind (lift (build_ack frame)) _ (Keeps-lift (build_ack frame))
      (λ content. Keeps-reply env content)

pub Keeps-note_unknown : (code : ℕ) → Keeps (note_unknown code)
unfolding note_unknown
Keeps-note_unknown code = record { at = λ w. refl }

match_response-keeps :
    (now : Datetime) (code number : ℕ) (r : CommandResponse) (s : Session)
    → (match_response now code number r s).suppress_replies ≡ s.suppress_replies
unfolding match_response note_unsolicited
match_response-keeps now code number r s =
    elim (Bool-cases (is_awaited s.outstanding code number r)) [
      | inl h ↦ rw (h) refl
      | inr h ↦ rw (h) refl
    ]

Keeps-handle_parsed :
    (env : Env) (frame : Frame) (r : Result CommandResponse) → Keeps (handle_parsed env frame r)
unfolding handle_parsed
Keeps-handle_parsed env frame (ok response) =
    Keeps-bind (lift (function frame)) _ (Keeps-lift (function frame)) (λ code.
      Keeps-modify (match_response env.now code (sequence frame) response)
        (match_response-keeps env.now code (sequence frame) response))
Keeps-handle_parsed env frame (err record_error) = Keeps-done
Keeps-handle_parsed env frame (err e) = Keeps-raising e

pub Keeps-handle_command_response :
    (env : Env) (frame : Frame) → Keeps (handle_command_response env frame)
unfolding handle_command_response
Keeps-handle_command_response env frame =
    Keeps-handle_parsed env frame (parse_command_response frame)

Keeps-note_encrypted : Keeps note_encrypted
Keeps-note_encrypted = record { at = λ w. refl }

Keeps-note_decode_error : (frame : Frame) → Keeps (note_decode_error frame)
unfolding note_decode_error
Keeps-note_decode_error frame = record {
  at = λ w.
      Keeps-continue _ _ (λ c. Keeps-branch c note_encrypted done Keeps-note_encrypted Keeps-done);
}

Keeps-identify :
    (env : Env) (callback : Option (Str → Str → ℕ → Bool)) (payload : RecordPayload) (version : ℕ)
    → Keeps (identify env callback payload version)
unfolding identify
Keeps-identify env none payload version = Keeps-done
Keeps-identify env (some callback) payload version =
    Keeps-bind (emit (identified payload.datalogger_serial payload.inverter_serial version)) _
      (Keeps-emit _)
      (λ u.
        Keeps-branch (callback payload.datalogger_serial payload.inverter_serial version) done
          (raising handler_error) Keeps-done (Keeps-raising handler_error))

Keeps-hand_on : (callback : Option (Record → Bool)) (r : Record) → Keeps (hand_on callback r)
unfolding hand_on
Keeps-hand_on none r = Keeps-done
Keeps-hand_on (some callback) r = Keeps-emit (recorded r)

Keeps-deliver_payload :
    (env : Env) (frame : Frame) (payload : RecordPayload)
    → Keeps (deliver_payload env frame payload)
unfolding deliver_payload adopt_serials
Keeps-deliver_payload env frame payload =
    Keeps-bind (modify (adopt_serials payload)) _ (Keeps-modify (adopt_serials payload) (λ s. refl))
      (λ u. Keeps-bind (lift (function frame)) _ (Keeps-lift (function frame)) (λ code.
        Keeps-bind (lift (protocol frame)) _ (Keeps-lift (protocol frame)) (λ version.
          Keeps-bind _ _
            (Keeps-branch (code == announce) _ _
              (Keeps-identify env env.on_identify payload version) Keeps-done)
            (λ v.
              Keeps-hand_on env.on_record
                (record { frame = frame; payload = payload; buffered = code == buffered })))))

Keeps-decode_parsed :
    (env : Env) (frame : Frame) (r : Result RecordPayload) → Keeps (decode_parsed env frame r)
unfolding decode_parsed
Keeps-decode_parsed env frame (ok payload) = Keeps-deliver_payload env frame payload
Keeps-decode_parsed env frame (err record_error) = Keeps-note_decode_error frame
Keeps-decode_parsed env frame (err e) = Keeps-raising e

pub Keeps-decode : (env : Env) (frame : Frame) → Keeps (decode env frame)
unfolding decode
Keeps-decode env frame = Keeps-decode_parsed env frame (parse_register_record frame)

Keeps-schedule_time_sync : Keeps schedule_time_sync
unfolding schedule_time_sync
Keeps-schedule_time_sync = record {
  at = λ w.
      (Keeps-branch
          (w.session.suppress_replies
            || not w.session.push_time_on_announce
            || is_running w.session.time_task)
          done (emit time_task_created >> modify (λ s. record s { time_task = running })) Keeps-done
          (Keeps-bind (emit time_task_created) _ (Keeps-emit time_task_created)
            (λ u. Keeps-modify (λ s. record s { time_task = running }) (λ s. refl)))).at
        w;
}

pub Keeps-check_frame_crc : (frame : Frame) → Keeps (check_frame_crc frame)
unfolding check_frame_crc
Keeps-check_frame_crc frame =
    Keeps-bind (lift (has_crc frame)) _ (Keeps-lift (has_crc frame)) (λ checked.
      Keeps-branch (checked && not (check_crc frame.raw)) _ done
        (Keeps-modify_stats (λ t. record t { crc_mismatches = t.crc_mismatches + 1 })) Keeps-done)

pub Keeps-answer_data : (env : Env) (frame : Frame) (code : ℕ) → Keeps (answer_data env frame code)
unfolding answer_data
Keeps-answer_data env frame code =
    Keeps-branch (contains register_record_functions code) _ _
      (Keeps-bind (acknowledge env frame) _ (Keeps-acknowledge env frame) (λ u.
        Keeps-bind (decode env frame) _ (Keeps-decode env frame)
          (λ v. Keeps-branch (code == announce) _ _ Keeps-schedule_time_sync Keeps-done)))
      (Keeps-branch (contains meter_functions code) _ _
        (Keeps-bind (acknowledge env frame) _ (Keeps-acknowledge env frame)
          (λ u. Keeps-note_unknown code))
        (Keeps-bind (note_unknown code) _ (Keeps-note_unknown code)
          (λ u. Keeps-acknowledge env frame)))

Keeps-dispatch : (env : Env) (frame : Frame) (code : ℕ) → Keeps (dispatch env frame code)
unfolding dispatch
Keeps-dispatch env frame code =
    Keeps-branch (code == ping) _ _
      (Keeps-bind (modify_stats (λ t. record t { pings = t.pings + 1 })) _
        (Keeps-modify_stats (λ t. record t { pings = t.pings + 1 }))
        (λ u. Keeps-reply env (build_ping_echo frame)))
      (Keeps-branch (contains command_response_functions code) _ _
        (Keeps-handle_command_response env frame)
        (Keeps-bind _ _
          (Keeps-branch (code == session_key) _ done
            (Keeps-modify (λ s. record s { key_exchange = true }) (λ s. refl)) Keeps-done)
          (λ u.
            Keeps-branch (code == ignored) done _ Keeps-done (Keeps-answer_data env frame code))))

pub Keeps-handle_frame : (env : Env) (frame : Frame) → Keeps (handle_frame env frame)
unfolding handle_frame
Keeps-handle_frame env frame =
    Keeps-bind (modify (λ s. record s { last_seen = some env.now })) _
      (Keeps-modify (λ s. record s { last_seen = some env.now }) (λ s. refl))
      (λ u. Keeps-bind (lift (protocol frame)) _ (Keeps-lift (protocol frame)) (λ version.
        Keeps-bind
          (modify (λ s. record s {
            protocol = some version;
            stats = record s.stats { records = s.stats.records + 1 };
          }))
          _
          (Keeps-modify
            (λ s. record s {
              protocol = some version;
              stats = record s.stats { records = s.stats.records + 1 };
            })
            (λ s. refl))
          (λ v. Keeps-bind (check_frame_crc frame) _ (Keeps-check_frame_crc frame) (λ x.
            Keeps-bind (lift (function frame)) _ (Keeps-lift (function frame))
              (λ code. Keeps-dispatch env frame code)))))

pub Keeps-handle_all :
    (env : ℕ → Env) (n : ℕ) (frames : List Bytes) → Keeps (handle_all env n frames)
unfolding handle_all
Keeps-handle_all env n [] = Keeps-done
Keeps-handle_all env n (x ∷ xs) =
    Keeps-bind (handle_frame (env n) (record { raw = x })) _
      (Keeps-handle_frame (env n) (record { raw = x })) (λ u. Keeps-handle_all env (suc n) xs)
