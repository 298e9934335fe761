-- ===== src/Session/Decoding.antt =====
-- What `_decode` raises.
use growatt_datalogger.Base.{
  Bool, Bool-cases, Option, false, if◌then◌else◌, inl, inr, none, not, refl, some, true, ℕ, ◌&&◌,
  ◌+◌, ◌==◌, ◌∙◌, ◌≡◌,
}
use growatt_datalogger.Python.{Bytes, Result, Str, err, handler_error, ok, record_error}
use growatt_datalogger.Records.Frame.{Frame, body, function, plaintext, protocol}
use growatt_datalogger.Records.Function.{announce, buffered}
use growatt_datalogger.Records.Parse.{RecordPayload, parse_register_record}
use growatt_datalogger.Session.Handle.{
  adopt_serials, block_padded, decode, decode_parsed, deliver_payload, hand_on, identify,
  is_encrypted, note_decode_error, note_encrypted,
}
use growatt_datalogger.Session.State.{Action, Env, Record, Session, World, branch, continue, done}

abbrev pub callback_raises : Option (Str → Str → ℕ → Bool) → RecordPayload → ℕ → Bool
callback_raises none payload version = false
callback_raises (some callback) payload version =
    not (callback payload.datalogger_serial payload.inverter_serial version)

identify-result :
    (env : Env) (callback : Option (Str → Str → ℕ → Bool)) (payload : RecordPayload) (version : ℕ)
    (w : World)
    → (identify env callback payload version w).0
      ≡ (if callback_raises callback payload version then err handler_error else ok tt)
unfolding identify
identify-result env none payload version w = refl
identify-result env (some callback) payload version w =
    elim (Bool-cases (callback payload.datalogger_serial payload.inverter_serial version)) [
      | inl h ↦ rw (h)
      | inr h ↦ rw (h)
    ]

hand_on-result :
    (callback : Option (Record → Bool)) (r : Record) (w : World) → (hand_on callback r w).0 ≡ ok tt
unfolding hand_on
hand_on-result none r w = refl
hand_on-result (some callback) r w = refl

-- An action that never raises does not change whether the one before it does.
continue-result :
    (out : Result (Unit {0}) × World) (n : Action (Unit {0}))
    → ((w : World) → (n w).0 ≡ ok tt)
    → (continue out (λ u. n)).0 ≡ out.0
continue-result (ok tt, w) n h = h w
continue-result (err e, w) n h = refl

branch-identify :
    (b : Bool) (env : Env) (payload : RecordPayload) (version : ℕ) (w : World)
    → (branch b (identify env env.on_identify payload version) done w).0
      ≡ (if b && callback_raises env.on_identify payload version then err handler_error else ok tt)
branch-identify true env payload version w = identify-result env env.on_identify payload version w
branch-identify false env payload version w = refl

deliver_payload-result :
    (env : Env) (frame : Frame) (payload : RecordPayload) (code version : ℕ) (w : World)
    → function frame ≡ ok code
    → protocol frame ≡ ok version
    → (deliver_payload env frame payload w).0 ≡ (
        if code == announce && callback_raises env.on_identify payload version
        then err handler_error
        else ok tt)
unfolding deliver_payload
deliver_payload-result env frame payload code version w hf hp =
    rw (hf, hp)
      (continue-result
          (branch (code == announce) (identify env env.on_identify payload version) done
            (record w { session = adopt_serials payload w.session }))
          (hand_on env.on_record
            (record { frame = frame; payload = payload; buffered = code == buffered }))
          (hand_on-result env.on_record _)
        ∙ branch-identify (code == announce) env payload version _)

body-ok :
    (frame : Frame) (version : ℕ)
    → protocol frame ≡ ok version
    → (content : Bytes) × (body frame ≡ ok content)
unfolding body plaintext
body-ok frame version h = rw (h) (_, refl)

is_encrypted-ok :
    (frame : Frame) (s : Session) (content : Bytes)
    → body frame ≡ ok content
    → (b : Bool) × (is_encrypted frame s ≡ ok b)
unfolding is_encrypted block_padded
is_encrypted-ok frame s content h = elim (Bool-cases s.key_exchange) [
  | inl k ↦ rw (k, h) (_, refl)
  | inr k ↦ rw (k) (_, refl)
]

branch-note_encrypted : (b : Bool) (w : World) → (branch b note_encrypted done w).0 ≡ ok tt
branch-note_encrypted true w = refl
branch-note_encrypted false w = refl

note_decode_error-result :
    (frame : Frame) (version : ℕ) (w : World)
    → protocol frame ≡ ok version
    → (note_decode_error frame w).0 ≡ ok tt
unfolding note_decode_error
note_decode_error-result frame version w h =
    let (content, found) = body-ok frame version h in
    let s : Session = record w.session {
      stats = record w.session.stats { decode_errors = w.session.stats.decode_errors + 1 };
    } in
    let (b, told) = is_encrypted-ok frame s content found in
    rw (told) (branch-note_encrypted b (record w { session = s }))

-- What decoding is to end with, by what the parser returns.
abbrev pub raised : Env → ℕ → ℕ → Result RecordPayload → Result (Unit {0})
raised env code version (ok payload) =
    if code == announce && callback_raises env.on_identify payload version
    then err handler_error
    else ok tt
raised env code version (err record_error) = ok tt
raised env code version (err e) = err e

decode_parsed-result :
    (env : Env) (frame : Frame) (code version : ℕ) (w : World) (r : Result RecordPayload)
    → function frame ≡ ok code
    → protocol frame ≡ ok version
    → (decode_parsed env frame r w).0 ≡ raised env code version r
unfolding decode_parsed
decode_parsed-result env frame code version w (ok payload) hf hp =
    deliver_payload-result env frame payload code version w hf hp
decode_parsed-result env frame code version w (err record_error) hf hp =
    note_decode_error-result frame version w hp
decode_parsed-result env frame code version w (err e) hf hp = refl

-- Decoding a frame that has a function code and a protocol version ends without an exception
-- where the parser returns a record or raises RecordError, whatever the record callback does, but
-- for one case: on an announcement whose identity callback raises, that exception leaves it. So
-- does any other exception of the parser.
pub decode-result :
    (env : Env) (frame : Frame) (code version : ℕ) (w : World)
    → function frame ≡ ok code
    → protocol frame ≡ ok version
    → (decode env frame w).0 ≡ raised env code version (parse_register_record frame)
unfolding decode
decode-result env frame code version w hf hp =
    decode_parsed-result env frame code version w (parse_register_record frame) hf hp
