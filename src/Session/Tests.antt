-- ===== src/Session/Tests.antt =====
-- Instances of the session's theorems.
use Prim.Native.Nat.{bit_and}
use growatt_datalogger.Base.{
  [], arith, false, filterb, inl, none, refl, some, true, ℕ, ◌++◌, ◌∷◌, ◌≡◌, ◌⊎◌,
}
use growatt_datalogger.Commands.Build.{Command, assemble, build, command_of}
use growatt_datalogger.Commands.Reply.{CommandResponse, response_of}
use growatt_datalogger.Python.{Bytes, Datetime, connection_error, err, ok, slice, word_bytes}
use growatt_datalogger.Records.Frame.{Frame, build_ack}
use growatt_datalogger.Records.Parse.{parse_register_record}
use growatt_datalogger.Session.Answers.{handle_frame-Answers}
use growatt_datalogger.Session.Command.{
  begin_command, begin_push_time, end_command, end_task, free_number,
}
use growatt_datalogger.Session.Correlate.{match_response, note_unsolicited, written_elsewhere}
use growatt_datalogger.Session.Decoding.{decode-result, raised}
use growatt_datalogger.Session.Elsewhere.{writes_to, written_elsewhere-note_all}
use growatt_datalogger.Session.Ended.{close-ends, ended, on_session}
use growatt_datalogger.Session.Exchange.{
  IsOnItsWay, awaiting, begin_command-IsOnItsWay, end_command-answered,
}
use growatt_datalogger.Session.Handle.{decode, handle_frame}
use growatt_datalogger.Session.Late.{IsLog, entries_from, match_response-IsLog, note_all}
use growatt_datalogger.Session.Matching.{Answering, match_response-decides}
use growatt_datalogger.Session.Numbers.{IsFree, free_number-IsFree}
use growatt_datalogger.Session.Replies.{Answers}
use growatt_datalogger.Session.State.{Env, Outstanding, Session, World, make_session, resolved}

abbrev noon : Datetime
noon = record { year = 2026; month = 8; day = 31; hour = 12; minute = 34; second = 56 }

abbrev plain_env : Env
plain_env = record { now = noon; deliver = λ b. true; on_record = none; on_identify = none }

abbrev start : World
start = record { session = make_session false; events = [] }

-- a record of protocol 2 that cannot be decoded: it is acknowledged all the same
abbrev broken : Frame
broken = record { raw = 0 ∷ 1 ∷ 0 ∷ 2 ∷ 0 ∷ 2 ∷ 1 ∷ 4 ∷ [] }

abbrev broken_ack : Bytes
broken_ack = 0 ∷ 1 ∷ 0 ∷ 2 ∷ 0 ∷ 3 ∷ 1 ∷ 4 ∷ 0 ∷ []

broken-build_ack : build_ack broken ≡ ok broken_ack
unfolding build_ack slice
broken-build_ack = refl

handle_frame-Answers_example :
    Answers [] (broken_ack ∷ []) (handle_frame plain_env broken start).1.events
handle_frame-Answers_example =
    handle_frame-Answers plain_env broken broken_ack broken-build_ack (λ b. refl) 4 2 start refl
      refl

free_number-IsFree_example :
    (n : ℕ) × (free_number 3
        (some (record { function = 5; sequence = 0x8001; register = 3 }))
        0x8000
      ≡ ok n)
    × IsFree (some (record { function = 5; sequence = 0x8001; register = 3 })) n
free_number-IsFree_example =
    free_number-IsFree 1 (some (record { function = 5; sequence = 0x8001; register = 3 })) 0x8000

abbrev read_three : Outstanding
read_three = record { function = 5; sequence = 0x8001; register = 3 }

abbrev waiting : Session
waiting = record (make_session false) { outstanding = some read_three }

abbrev late_write : CommandResponse
late_write = record (response_of 0x06 3) { result = some 0 }

match_response-decides_example :
    (Answering read_three 6 0x8001 late_write
      × (match_response noon 6 0x8001 late_write waiting
          ≡ record waiting { future = resolved late_write }))
    ⊎ (¬ Answering read_three 6 0x8001 late_write
        × (match_response noon 6 0x8001 late_write waiting
            ≡ note_unsolicited noon late_write waiting))
match_response-decides_example =
    match_response-decides noon 6 0x8001 late_write waiting read_three refl refl

make_session-IsLog : IsLog (make_session false)
make_session-IsLog = record { bounded = omega arith; counted = tt }

match_response-IsLog_example : IsLog (match_response noon 6 7 late_write (make_session false))
match_response-IsLog_example =
    match_response-IsLog noon 6 7 late_write (make_session false) make_session-IsLog

written_elsewhere-note_all_example :
    written_elsewhere (note_all ((noon, late_write) ∷ []) (make_session false)) 3 0
    ≡ filterb (writes_to 3) (entries_from 0 ((noon, late_write) ∷ []))
written_elsewhere-note_all_example =
    written_elsewhere-note_all (make_session false) 3 ((noon, late_write) ∷ []) make_session-IsLog
      (omega arith)

abbrev write_fifty : Command
write_fifty = command_of 0x06 3 (0 ∷ 3 ∷ 0 ∷ 50 ∷ [])

abbrev known : World
known = record {
  session = record (make_session false) { protocol = some 2; datalogger_serial = some (88 ∷ []) };
  events = [];
}

write_fifty-build :
    (n : ℕ)
    → build write_fifty n 2
      ≡ ok (word_bytes (bit_and n 0xFFFF) ++ 0 ∷ 2 ∷ 0 ∷ 6 ∷ 1 ∷ 6 ∷ write_fifty.body)
unfolding build assemble
write_fifty-build n = refl

begin_command-IsOnItsWay_example :
    IsOnItsWay write_fifty 2 known (begin_command plain_env write_fifty known)
begin_command-IsOnItsWay_example =
    begin_command-IsOnItsWay plain_env write_fifty 2 (88 ∷ []) known refl refl refl
      (λ n. (_, write_fifty-build n)) (λ content. refl)

fifty-Answering :
    Answering (record { function = 6; sequence = 0x8000; register = 3 }) 6 12 late_write
fifty-Answering = record { same_function = refl; register_or_sequence = inl refl }

end_command-answered_example :
    end_command (record {
      session = match_response noon 6 12 late_write (awaiting known.session write_fifty 0x8000);
      events = [];
    })
    ≡ (
      ok late_write,
      record {
        session = record (awaiting known.session write_fifty 0x8000) {
          outstanding = none;
          future = resolved late_write;
        };
        events = [];
      },
    )
end_command-answered_example =
    end_command-answered noon known.session write_fifty 0x8000 6 12 late_write [] fifty-Answering

close-ends_example :
    (begin_command plain_env write_fifty (ended waiting ((noon, 5, 7, late_write) ∷ []) [])
      ≡ (err connection_error, ended waiting ((noon, 5, 7, late_write) ∷ []) []))
    × (begin_push_time plain_env (ended waiting ((noon, 5, 7, late_write) ∷ []) [])
        ≡ (ok tt, on_session end_task (ended waiting ((noon, 5, 7, late_write) ∷ []) [])))
    × ((end_command (ended waiting ((noon, 5, 7, late_write) ∷ []) [])).0 ≡ err connection_error)
close-ends_example = close-ends plain_env write_fifty waiting ((noon, 5, 7, late_write) ∷ []) []

decode-result_example :
    (decode plain_env broken start).0 ≡ raised plain_env 4 2 (parse_register_record broken)
decode-result_example = decode-result plain_env broken 4 2 start refl refl
