-- ===== src/Framing/Tests.antt =====
-- Runs and instances of the framer.
use growatt_datalogger.Base.{[], arith, length, refl, ◌++◌, ◌<◌, ◌∷◌, ◌≡◌}
use growatt_datalogger.Framing.{
  Framer, IsFramed, after_length, cut_within, feed, feed_bytes, feed_loop, frame_length, next_round,
  pending,
}
use growatt_datalogger.Framing.Stream.{
  IsDrained, IsReassembled, feed-IsReassembled, feed-concat, feed_chunks, feed_chunks-eq-feed,
  pending-lt,
}
use growatt_datalogger.Python.{Bytes, err, frame_error, from_bytes, ok, slice}

abbrev fresh : Framer
fresh = record { max_frame = 8192; buffer = [] }

abbrev ping_frame : Bytes
ping_frame = 0 ∷ 1 ∷ 0 ∷ 2 ∷ 0 ∷ 3 ∷ 1 ∷ 22 ∷ 65 ∷ []

abbrev short_frame : Bytes
short_frame = 0 ∷ 2 ∷ 0 ∷ 2 ∷ 0 ∷ 2 ∷ 1 ∷ 4 ∷ []

fresh-IsDrained : IsDrained fresh
unfolding next_round
fresh-IsDrained = refl

-- one frame and the beginning of another
one_and_a_half :
    feed fresh (ping_frame ++ 0 ∷ 2 ∷ 0 ∷ [])
    ≡ (ok (ping_frame ∷ []), record fresh { buffer = 0 ∷ 2 ∷ 0 ∷ [] })
unfolding feed feed_bytes feed_loop next_round after_length cut_within frame_length from_bytes slice
one_and_a_half = refl

unsupported : (feed fresh (0 ∷ 1 ∷ 0 ∷ 3 ∷ 0 ∷ 3 ∷ [])).0 ≡ err frame_error
unfolding feed feed_bytes feed_loop next_round after_length cut_within frame_length from_bytes slice
unsupported = refl

feed-IsReassembled_example :
    IsReassembled fresh
      (ping_frame ++ 0 ∷ 2 ∷ 0 ∷ [])
      (ping_frame ∷ [])
      (record fresh { buffer = 0 ∷ 2 ∷ 0 ∷ [] })
feed-IsReassembled_example = feed-IsReassembled fresh _ _ _ one_and_a_half

pending-lt_example : length (pending fresh) < 8192
pending-lt_example = pending-lt fresh fresh-IsDrained (omega arith)

feed_chunks-eq-feed_example :
    (feed_chunks fresh ((0 ∷ 1 ∷ 0 ∷ []) ∷ (2 ∷ 0 ∷ 3 ∷ 1 ∷ []) ∷ (22 ∷ 65 ∷ []) ∷ [])).0
    ≡ (feed fresh ping_frame).0
feed_chunks-eq-feed_example =
    feed_chunks-eq-feed fresh ((0 ∷ 1 ∷ 0 ∷ []) ∷ (2 ∷ 0 ∷ 3 ∷ 1 ∷ []) ∷ (22 ∷ 65 ∷ []) ∷ [])
      fresh-IsDrained

ping-IsFramed : IsFramed 8192 ping_frame
unfolding frame_length from_bytes slice
ping-IsFramed = record { header = omega arith; declared = refl; limit = omega arith }

short-IsFramed : IsFramed 8192 short_frame
unfolding frame_length from_bytes slice
short-IsFramed = record { header = omega arith; declared = refl; limit = omega arith }

feed-concat_example :
    feed fresh (ping_frame ++ (short_frame ++ [])) ≡ (ok (ping_frame ∷ short_frame ∷ []), fresh)
feed-concat_example =
    feed-concat fresh (ping_frame ∷ short_frame ∷ []) (unfold pending in refl)
      (ping-IsFramed, (short-IsFramed, tt))
