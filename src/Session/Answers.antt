-- ===== src/Session/Answers.antt =====
-- What `handle_frame` sends: the reply that each kind of frame gets, before anything else is done.
use growatt_datalogger.Base.{
  Bool, List, [], contains, false, if◌then◌else◌, not, some, true, ℕ, ◌&&◌, ◌+◌, ◌==◌, ◌∷◌, ◌≡◌,
}
use growatt_datalogger.Crc.{check_crc}
use growatt_datalogger.Crypt.{obfuscated_protocols}
use growatt_datalogger.Python.{Bytes, ok}
use growatt_datalogger.Records.Frame.{Frame, build_ack, build_ping_echo, function, protocol}
use growatt_datalogger.Records.Function.{
  announce, command_response_functions, ignored, meter_functions, ping, register_record_functions,
  session_key,
}
use growatt_datalogger.Session.Handle.{
  acknowledge, answer_data, check_frame_crc, decode, dispatch, handle_frame, note_unknown, reply,
  schedule_time_sync,
}
use growatt_datalogger.Session.Quiet.{
  Quiet, Quiet-bind, Quiet-branch, Quiet-decode, Quiet-done, Quiet-handle_command_response,
  Quiet-note_unknown, Quiet-schedule_time_sync,
}
use growatt_datalogger.Session.Replies.{
  Answers, Replying, Replying-Quiet, Replying-acknowledge, Replying-branch, Replying-key_exchange,
  Replying-modify_stats, Replying-reply, Replying-then, unless_suppressed,
}
use growatt_datalogger.Session.State.{Action, Env, Stats, World, branch, done, modify_stats, ◌>>◌}

-- What a frame with this function code is answered with, its acknowledgement being at hand.
abbrev pub replies_to : Frame → ℕ → Bytes → List Bytes
replies_to frame code ack =
    if code == ping
    then frame.raw ∷ []
    else if contains command_response_functions code
    then []
    else if code == ignored
    then []
    else ack ∷ []

Replying-either :
    (b : Bool) (e : List Bytes) (m n : Action (Unit {0}))
    → Replying e m
    → Replying e n
    → Replying e (branch b m n)
Replying-either true e m n p q = p
Replying-either false e m n p q = q

Replying-note_unknown :
    (code : ℕ) (e : List Bytes) (m : Action (Unit {0}))
    → Replying e m
    → Replying e (note_unknown code >> m)
unfolding note_unknown
Replying-note_unknown code e m p = Replying-modify_stats _ e m p

Replying-counted :
    (b : Bool) (f : Stats → Stats) (e : List Bytes) (m : Action (Unit {0}))
    → Replying e m
    → Replying e (branch b (modify_stats f) done >> m)
Replying-counted true f e m p = Replying-modify_stats f e m p
Replying-counted false f e m p = record { at = λ w. p.at w }

Quiet-after_ack :
    (env : Env) (frame : Frame) (code : ℕ)
    → Quiet (decode env frame >> branch (code == announce) schedule_time_sync done)
Quiet-after_ack env frame code =
    Quiet-bind (decode env frame) _ (Quiet-decode env frame)
      (λ u. Quiet-branch (code == announce) _ _ Quiet-schedule_time_sync Quiet-done)

module _ (env : Env) (frame : Frame) (ack : Bytes) (built : build_ack frame ≡ ok ack)
    (delivered : (b : Bytes) → env.deliver b ≡ true) where
  Replying-answer_data : (code : ℕ) → Replying (ack ∷ []) (answer_data env frame code)
  unfolding answer_data
  Replying-answer_data code =
      let acked : Replying (ack ∷ []) (acknowledge env frame) =
        Replying-acknowledge env frame ack built (delivered ack) in
      Replying-either (contains register_record_functions code) (ack ∷ []) _ _
        (Replying-then (ack ∷ []) (acknowledge env frame) _ acked (Quiet-after_ack env frame code))
        (Replying-either (contains meter_functions code) (ack ∷ []) _ _
          (Replying-then (ack ∷ []) (acknowledge env frame) (note_unknown code) acked
            (Quiet-note_unknown code))
          (Replying-note_unknown code (ack ∷ []) (acknowledge env frame) acked))

  Replying-dispatch : (code : ℕ) → Replying (replies_to frame code ack) (dispatch env frame code)
  unfolding dispatch build_ping_echo
  Replying-dispatch code =
      Replying-branch (code == ping) (frame.raw ∷ []) _ _ _
        (Replying-modify_stats _ (frame.raw ∷ []) (reply env frame.raw)
          (Replying-reply env frame.raw (delivered frame.raw)))
        (Replying-branch (contains command_response_functions code) [] _ _ _
          (Replying-Quiet _ (Quiet-handle_command_response env frame))
          (Replying-key_exchange (code == session_key) _ _ (
            Replying-branch (code == ignored) [] (ack ∷ []) done _ (Replying-Quiet done Quiet-done)
              (Replying-answer_data code))))

  -- For a frame that has a function code and a protocol version and can be acknowledged, and a
  -- transport that takes all bytes: a ping is answered with its own bytes, a reply to a command
  -- and an ignored frame with nothing, and every other frame with its acknowledgement, known or
  -- not. With replies suppressed nothing is sent. The answer precedes all that the session hands
  -- to its callbacks, and nothing else is sent, whether decoding and the callbacks succeed or
  -- not.
  pub handle_frame-Answers :
      (code version : ℕ) (w : World)
      → function frame ≡ ok code
      → protocol frame ≡ ok version
      → Answers w.events
          (unless_suppressed w.session (replies_to frame code ack))
          (handle_frame env frame w).1.events
  unfolding handle_frame check_frame_crc
  handle_frame-Answers code version w hf hp =
      rw (hp, hf)
        ((Replying-counted (contains obfuscated_protocols version && not (check_crc frame.raw))
            (λ t. record t { crc_mismatches = t.crc_mismatches + 1 }) (replies_to frame code ack)
            (dispatch env frame code) (Replying-dispatch code)).at
          (record w {
            session = record w.session {
              last_seen = some env.now;
              protocol = some version;
              stats = record w.session.stats { records = w.session.stats.records + 1 };
            };
          }))
