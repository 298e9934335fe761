-- ===== src/Server/Hushed.antt =====
-- A session that suppresses its replies handles whole chunks and sends nothing.
use growatt_datalogger.Base.{
  Bool, List, [], contains, false, not, refl, some, suc, true, ℕ, ◌&&◌, ◌+◌, ◌==◌, ◌∙◌, ◌∷◌, ◌≡◌,
}
use growatt_datalogger.Crc.{check_crc}
use growatt_datalogger.Python.{Bytes, Result, err, ok}
use growatt_datalogger.Records.Frame.{
  Frame, build_ack, build_ping_echo, function, has_crc, protocol,
}
use growatt_datalogger.Records.Function.{
  announce, command_response_functions, ignored, meter_functions, ping, register_record_functions,
  session_key,
}
use growatt_datalogger.Server.Keeps.{
  Keeps, Keeps-acknowledge, Keeps-branch, Keeps-check_frame_crc, Keeps-done, Keeps-handle_frame,
  Keeps-lift, Keeps-modify, Keeps-modify_stats, Keeps-note_unknown, suppressed,
}
use growatt_datalogger.Server.Link.{handle_all, handle_fed}
use growatt_datalogger.Session.Handle.{
  acknowledge, answer_data, check_frame_crc, decode, dispatch, handle_frame, note_unknown, reply,
}
use growatt_datalogger.Session.Quiet.{
  After, After-refl, After-trans, Quiet, Quiet-bind, Quiet-branch, Quiet-decode, Quiet-done,
  Quiet-handle_command_response, Quiet-lift, Quiet-modify, Quiet-note_unknown, Quiet-raising,
  Quiet-schedule_time_sync,
}
use growatt_datalogger.Session.State.{
  Action, Env, Session, Stats, World, branch, continue, done, lift, modify, modify_stats, raising,
  ◌>>=◌,
}

pub record Hushes {ℓ} {A : Type ℓ} (m : Action A) : Type ℓ where
  pub at : (w : World) → suppressed w ≡ true → After w.events (m w).1.events

Hushes-Quiet {ℓ} : {A : Type ℓ} (m : Action A) → Quiet m → Hushes m
Hushes-Quiet m q = record { at = λ w h. q.at w }

Hushes-branch {ℓ} :
    {A : Type ℓ} (b : Bool) (m n : Action A) → Hushes m → Hushes n → Hushes (branch b m n)
Hushes-branch true m n p q = p
Hushes-branch false m n p q = q

module _ {ℓ κ} {A : Type ℓ} {B : Type κ} where
  Hushes-continue :
      (out : Result A × World) (f : A → Action B)
      → ((a : A) → Hushes (f a))
      → suppressed out.1 ≡ true
      → After out.1.events (continue out f).1.events
  Hushes-continue (ok a, w) f q h = (q a).at w h
  Hushes-continue (err e, w) f q h = After-refl w.events

  Hushes-bind :
      (m : Action A) (f : A → Action B)
      → Keeps m
      → Hushes m
      → ((a : A) → Hushes (f a))
      → Hushes (m >>= f)
  Hushes-bind m f k p q = record {
    at = λ w h. After-trans (p.at w h) (Hushes-continue (m w) f q (k.at w ∙ h));
  }

Quiet-modify_stats : (f : Stats → Stats) → Quiet (modify_stats f)
Quiet-modify_stats f = record { at = λ w. After-refl w.events }

Hushes-after {ℓ κ} :
    {A : Type ℓ} {B : Type κ} (m : Action A) (f : A → Action B)
    → Keeps m
    → Quiet m
    → ((a : A) → Hushes (f a))
    → Hushes (m >>= f)
Hushes-after m f k q p = Hushes-bind m f k (Hushes-Quiet m q) p

Hushes-reply : (env : Env) (content : Bytes) → Hushes (reply env content)
unfolding reply
Hushes-reply env content = record { at = λ w h. rw (h) (After-refl w.events) }

Hushes-acknowledge : (env : Env) (frame : Frame) → Hushes (acknowledge env frame)
unfolding acknowledge
Hushes-acknowledge env frame =
    Hushes-bind (lift (build_ack frame)) _ (Keeps-lift (build_ack frame))
      (Hushes-Quiet (lift (build_ack frame)) (Quiet-lift (build_ack frame))) (Hushes-reply env)

Hushes-answer_data : (env : Env) (frame : Frame) (code : ℕ) → Hushes (answer_data env frame code)
unfolding answer_data
Hushes-answer_data env frame code =
    Hushes-branch (contains register_record_functions code) _ _
      (Hushes-bind (acknowledge env frame) _ (Keeps-acknowledge env frame)
        (Hushes-acknowledge env frame)
        (λ u. Hushes-Quiet _ (
          Quiet-bind (decode env frame) _ (Quiet-decode env frame)
            (λ v. Quiet-branch (code == announce) _ _ Quiet-schedule_time_sync Quiet-done))))
      (Hushes-branch (contains meter_functions code) _ _
        (Hushes-bind (acknowledge env frame) _ (Keeps-acknowledge env frame)
          (Hushes-acknowledge env frame)
          (λ u. Hushes-Quiet (note_unknown code) (Quiet-note_unknown code)))
        (Hushes-bind (note_unknown code) _ (Keeps-note_unknown code)
          (Hushes-Quiet (note_unknown code) (Quiet-note_unknown code))
          (λ u. Hushes-acknowledge env frame)))

abbrev count_ping : Stats → Stats
count_ping t = record t { pings = t.pings + 1 }

abbrev note_key_exchange : Session → Session
note_key_exchange s = record s { key_exchange = true }

Hushes-dispatch : (env : Env) (frame : Frame) (code : ℕ) → Hushes (dispatch env frame code)
unfolding dispatch
Hushes-dispatch env frame code =
    Hushes-branch (code == ping) _ _
      (Hushes-after (modify_stats count_ping) _ (Keeps-modify_stats count_ping)
        (Quiet-modify_stats count_ping) (λ u. Hushes-reply env (build_ping_echo frame)))
      (Hushes-branch (contains command_response_functions code) _ _
        (Hushes-Quiet _ (Quiet-handle_command_response env frame))
        (Hushes-after (branch (code == session_key) (modify note_key_exchange) done) _
          (Keeps-branch (code == session_key) (modify note_key_exchange) done
            (Keeps-modify note_key_exchange (λ s. refl)) Keeps-done)
          (Quiet-branch (code == session_key) (modify note_key_exchange) done
            (Quiet-modify note_key_exchange) Quiet-done)
          (λ u.
            Hushes-branch (code == ignored) done _ (Hushes-Quiet done Quiet-done)
              (Hushes-answer_data env frame code))))

abbrev seen_at : Env → Session → Session
seen_at env s = record s { last_seen = some env.now }

abbrev note_record : ℕ → Session → Session
note_record version s = record s {
  protocol = some version;
  stats = record s.stats { records = s.stats.records + 1 };
}

Quiet-check_frame_crc : (frame : Frame) → Quiet (check_frame_crc frame)
unfolding check_frame_crc
Quiet-check_frame_crc frame =
    Quiet-bind (lift (has_crc frame)) _ (Quiet-lift (has_crc frame)) (λ checked.
      Quiet-branch (checked && not (check_crc frame.raw)) _ done
        (Quiet-modify_stats (λ t. record t { crc_mismatches = t.crc_mismatches + 1 })) Quiet-done)

Hushes-handle_frame : (env : Env) (frame : Frame) → Hushes (handle_frame env frame)
unfolding handle_frame
Hushes-handle_frame env frame =
    Hushes-after (modify (seen_at env)) _ (Keeps-modify (seen_at env) (λ s. refl))
      (Quiet-modify (seen_at env))
      (λ u.
        Hushes-after (lift (protocol frame)) _ (Keeps-lift (protocol frame))
          (Quiet-lift (protocol frame))
          (λ version.
            Hushes-after (modify (note_record version)) _
              (Keeps-modify (note_record version) (λ s. refl)) (Quiet-modify (note_record version))
              (λ v.
                Hushes-after (check_frame_crc frame) _ (Keeps-check_frame_crc frame)
                  (Quiet-check_frame_crc frame)
                  (λ x.
                    Hushes-after (lift (function frame)) _ (Keeps-lift (function frame))
                      (Quiet-lift (function frame)) (Hushes-dispatch env frame)))))

pub Hushes-handle_all :
    (env : ℕ → Env) (n : ℕ) (frames : List Bytes) → Hushes (handle_all env n frames)
unfolding handle_all
Hushes-handle_all env n [] = Hushes-Quiet done Quiet-done
Hushes-handle_all env n (x ∷ xs) =
    Hushes-bind (handle_frame (env n) (record { raw = x })) _
      (Keeps-handle_frame (env n) (record { raw = x }))
      (Hushes-handle_frame (env n) (record { raw = x })) (λ u. Hushes-handle_all env (suc n) xs)

pub Hushes-handle_fed :
    (env : ℕ → Env) (n : ℕ) (fed : Result (List Bytes)) → Hushes (handle_fed env n fed)
Hushes-handle_fed env n (ok frames) = Hushes-handle_all env n frames
Hushes-handle_fed env n (err e) = Hushes-Quiet (raising e) (Quiet-raising e)
