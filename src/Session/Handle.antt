-- ===== src/Session/Handle.antt =====
-- `handle_frame`: the reply that a frame needs, and then its data.
use growatt_datalogger.Base.{
  Bool, Option, contains, false, if◌then◌else◌, length, none, not, some, true, ℕ, ◌%◌, ◌&&◌, ◌+◌,
  ◌==◌, ◌||◌,
}
use growatt_datalogger.Base.Dict.{insert, lookup}
use growatt_datalogger.Crc.{check_crc}
use growatt_datalogger.Python.{Bytes, Result, Str, err, handler_error, is_empty, ok, record_error}
use growatt_datalogger.Records.Frame.{
  Frame, body, build_ack, build_ping_echo, function, has_crc, protocol,
}
use growatt_datalogger.Records.Function.{
  announce, buffered, command_response_functions, ignored, meter_functions, ping,
  register_record_functions, session_key,
}
use growatt_datalogger.Records.Parse.{RecordPayload, parse_register_record}
use growatt_datalogger.Session.Correlate.{handle_command_response}
use growatt_datalogger.Session.State.{
  Action, Env, Record, Session, TimeTask, absent, branch, done, emit, finished, gets, identified,
  lift, modify, modify_stats, raising, recorded, running, send, time_task_created, ◌>>=◌, ◌>>◌,
}

unfoldable pub reply : Env → Bytes → Action (Unit {0})
unfolding send
reply env content = do
  quiet ← gets (λ s. s.suppress_replies)
  branch quiet done
      (do send env content; modify_stats (λ t. record t { acknowledged = t.acknowledged + 1 }))

unfoldable pub acknowledge : Env → Frame → Action (Unit {0})
unfolding reply
acknowledge env frame = do content ← lift (build_ack frame); reply env content

abbrev count_of : Option ℕ → ℕ
count_of none = 0
count_of (some n) = n

unfoldable pub note_unknown : ℕ → Action (Unit {0})
note_unknown code = modify_stats (λ t. record t {
  unknown_functions =
      insert code (count_of (lookup code t.unknown_functions) + 1) t.unknown_functions;
})

unfoldable pub block_padded : Result Bytes → Result Bool
block_padded (ok b) = ok (length b % 16 == 0)
block_padded (err e) = err e

-- `_is_encrypted`
unfoldable pub is_encrypted : Frame → Session → Result Bool
unfolding block_padded
is_encrypted frame s = if s.key_exchange then block_padded (body frame) else ok false

abbrev pub note_encrypted : Action (Unit {0})
note_encrypted = do
  modify_stats (λ t. record t { encrypted_records = t.encrypted_records + 1 })
  modify (λ s. record s { encrypted = true })

-- what `_decode` does about a RecordError
unfoldable pub note_decode_error : Frame → Action (Unit {0})
unfolding is_encrypted
note_decode_error frame = do
  modify_stats (λ t. record t { decode_errors = t.decode_errors + 1 })
  s ← gets (λ s. s)
  ciphertext ← lift (is_encrypted frame s)
  branch ciphertext note_encrypted done

-- `self._on_identify(…)`; an exception of the callback is not caught
unfoldable pub identify :
    Env → Option (Str → Str → ℕ → Bool) → RecordPayload → ℕ → Action (Unit {0})
identify env none payload version = done
identify env (some callback) payload version = do
  emit (identified payload.datalogger_serial payload.inverter_serial version)
  branch (callback payload.datalogger_serial payload.inverter_serial version) done
      (raising handler_error)

-- `self._on_record(record)`; an exception of the callback is logged and dropped
unfoldable pub hand_on : Option (Record → Bool) → Record → Action (Unit {0})
hand_on none r = done
hand_on (some callback) r = emit (recorded r)

unfoldable pub adopt_serials : RecordPayload → Session → Session
adopt_serials payload s = record s {
  datalogger_serial = some payload.datalogger_serial;
  inverter_serial =
      if is_empty payload.inverter_serial then s.inverter_serial else some payload.inverter_serial;
}

unfoldable pub deliver_payload : Env → Frame → RecordPayload → Action (Unit {0})
unfolding adopt_serials identify hand_on
deliver_payload env frame payload = do
  modify (adopt_serials payload)
  code ← lift (function frame)
  version ← lift (protocol frame)
  branch (code == announce) (identify env env.on_identify payload version) done
  hand_on env.on_record (record { frame = frame; payload = payload; buffered = code == buffered })

unfoldable pub decode_parsed : Env → Frame → Result RecordPayload → Action (Unit {0})
unfolding deliver_payload note_decode_error
decode_parsed env frame (ok payload) = deliver_payload env frame payload
decode_parsed env frame (err record_error) = note_decode_error frame
decode_parsed env frame (err e) = raising e

-- `_decode`
unfoldable pub decode : Env → Frame → Action (Unit {0})
unfolding decode_parsed
decode env frame = decode_parsed env frame (parse_register_record frame)

abbrev pub is_running : TimeTask → Bool
is_running running = true
is_running absent = false
is_running finished = false

-- `_schedule_time_sync`
unfoldable pub schedule_time_sync : Action (Unit {0})
schedule_time_sync = do
  s ← gets (λ s. s)
  branch (s.suppress_replies || not s.push_time_on_announce || is_running s.time_task) done
      (do emit time_task_created; modify (λ s. record s { time_task = running }))

unfoldable pub check_frame_crc : Frame → Action (Unit {0})
check_frame_crc frame = do
  checked ← lift (has_crc frame)
  branch (checked && not (check_crc frame.raw))
      (modify_stats (λ t. record t { crc_mismatches = t.crc_mismatches + 1 })) done

-- What `handle_frame` does about a frame that needs an acknowledgement.
unfoldable pub answer_data : Env → Frame → ℕ → Action (Unit {0})
answer_data env frame code =
    branch (contains register_record_functions code)
      (do
        acknowledge env frame
        decode env frame
        branch (code == announce) schedule_time_sync done)
      (branch (contains meter_functions code) (do acknowledge env frame; note_unknown code)
        (do note_unknown code; acknowledge env frame))

-- What `handle_frame` does once the function code is known.
unfoldable pub dispatch : Env → Frame → ℕ → Action (Unit {0})
unfolding answer_data
dispatch env frame code =
    branch (code == ping)
      (do modify_stats (λ t. record t { pings = t.pings + 1 }); reply env (build_ping_echo frame))
      (branch (contains command_response_functions code) (handle_command_response env frame) (do
        branch (code == session_key) (modify (λ s. record s { key_exchange = true })) done
        branch (code == ignored) done (answer_data env frame code)))

unfoldable pub handle_frame : Env → Frame → Action (Unit {0})
handle_frame env frame = do
  modify (λ s. record s { last_seen = some env.now })
  version ← lift (protocol frame)
  modify (λ s. record s {
    protocol = some version;
    stats = record s.stats { records = s.stats.records + 1 };
  })
  check_frame_crc frame
  code ← lift (function frame)
  dispatch env frame code
