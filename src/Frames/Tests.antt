-- ===== src/Frames/Tests.antt =====
-- An instance of the round trip of a record.
use growatt_datalogger.Base.{[], arith, refl, ◌∷◌, ◌≡◌}
use growatt_datalogger.Frames.{build_data_record, build_groups}
use growatt_datalogger.Frames.Roundtrip.{parse-build_data_record}
use growatt_datalogger.Python.{Datetime, Str, ok, ◌>>=◌}
use growatt_datalogger.Records.Parse.{RegisterGroup, parse_register_record}
use growatt_datalogger.Records.Parse.Groups.{IsGroup, encode_group, encode_groups, encode_words}
use growatt_datalogger.Records.Parse.Whole.{IsRecord, encode_body, payload_of}

abbrev one_group : RegisterGroup
one_group = record { start = 3000; end = 3001; values = 1 ∷ 65535 ∷ [] }

abbrev datalogger : Str
datalogger = 71 ∷ 80 ∷ 71 ∷ 48 ∷ []

abbrev inverter : Str
inverter = 83 ∷ 77 ∷ 76 ∷ 48 ∷ []

abbrev noon : Datetime
noon = record { year = 2026; month = 8; day = 31; hour = 12; minute = 34; second = 56 }

one_group-IsGroup : IsGroup one_group
one_group-IsGroup = record {
  ordered = omega arith;
  fits = omega arith;
  counted = refl;
  words_fit = omega arith;
}

example-IsRecord : IsRecord 30 datalogger inverter noon (one_group ∷ [])
example-IsRecord = record {
  datalogger_serial = record { fits = omega arith; ascii = omega arith };
  inverter_serial = record { fits = omega arith; ascii = omega arith };
  since = omega arith;
  date = refl;
  groups_fit = (one_group-IsGroup, tt);
}

parse-build_data_record_example :
    (do
      parts ← build_groups (one_group ∷ [])
      raw ← build_data_record 6 4 1 datalogger inverter noon parts
      parse_register_record (record { raw = raw }))
    ≡ ok (payload_of datalogger inverter noon (one_group ∷ []))
parse-build_data_record_example =
    parse-build_data_record 6 30 refl datalogger inverter noon (one_group ∷ []) example-IsRecord
      (omega arith) (omega arith) 4 1 refl (omega arith)
      (unfold encode_body encode_groups encode_group encode_words in omega arith)
