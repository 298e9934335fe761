-- ===== src/Records/Tests.antt =====
-- An instance of the acknowledgement's theorem.
use growatt_datalogger.Base.{[], arith, refl, ◌∷◌, ◌≡◌}
use growatt_datalogger.Python.{Bytes, ok}
use growatt_datalogger.Records.Ack.{IsAck, build_ack-IsAck}
use growatt_datalogger.Records.Frame.{build_ack}

abbrev data_frame : Bytes
data_frame = 0 ∷ 9 ∷ 0 ∷ 6 ∷ 0 ∷ 3 ∷ 1 ∷ 4 ∷ 71 ∷ 12 ∷ 34 ∷ []

build_ack-IsAck_example :
    (ack : Bytes) × (build_ack (record { raw = data_frame }) ≡ ok ack)
    × IsAck (record { raw = data_frame }) ack
build_ack-IsAck_example = build_ack-IsAck 0 9 0 6 0 3 1 4 (71 ∷ 12 ∷ 34 ∷ []) (omega arith) refl
