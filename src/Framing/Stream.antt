-- ===== src/Framing/Stream.antt =====
-- `Framer.feed` as a client sees it: what one call returns and keeps, and that it does not matter
-- how TCP cuts the stream into chunks.
use growatt_datalogger.Base.{
  All, List, [], ap, append-nil, append_assoc, ap₂, arith, concat, inl, inr, length, suc, sym, ◌++◌,
  ◌<◌, ◌∙◌, ◌∷◌, ◌≡◌, ◌≤◌,
}
use growatt_datalogger.Framing.{
  Fed, Framer, IsFramed, after_length, cut_within, feed, feed_bytes, feed_loop, next_round, pending,
  prepended, wait,
}
use growatt_datalogger.Framing.Loop.{
  feed_loop-IsFramed, feed_loop-wait, feed_loop_ends, feed_loop_keeps,
}
use growatt_datalogger.Framing.Resume.{feed_bytes-append, feed_bytes-append_raise, feed_loop-concat}
use growatt_datalogger.Python.{Bytes, Error, Result, Result-cases, err, ok}

-- A framer between two calls: its buffer holds no complete frame and no broken header.
abbrev pub IsDrained : Framer → Type 0
IsDrained framer = next_round framer.max_frame framer.buffer ≡ wait

-- What a call that does not raise has done with the bytes it was given.
pub record IsReassembled (framer : Framer) (chunk : Bytes) (frames : List Bytes) (after : Framer)
    : Type 0 where
  pub keeps : concat frames ++ pending after ≡ pending framer ++ chunk
  pub framed : All (IsFramed framer.max_frame) frames
  pub drained : IsDrained after
  pub same_limit : after.max_frame ≡ framer.max_frame

-- A call of `feed` that returns frames has lost, added and reordered nothing: the frames and what
-- is still pending are together the old buffer and the chunk. Each frame is as long as its header
-- declares and within the limit, no complete frame and no broken header is left in the buffer,
-- and the limit has not changed.
pub feed-IsReassembled :
    (framer after : Framer) (chunk : Bytes) (frames : List Bytes)
    → feed framer chunk ≡ (ok frames, after)
    → IsReassembled framer chunk frames after
unfolding feed feed_bytes pending
feed-IsReassembled framer after chunk frames h =
    let buffer : Bytes = framer.buffer ++ chunk in
    let fuel : length buffer < suc (length buffer) = omega arith in
    let r : (feed_bytes framer.max_frame buffer).result ≡ ok frames =
      ap (λ (p : Result (List Bytes) × Framer). p.0) h in
    let b : (feed_bytes framer.max_frame buffer).buffer ≡ after.buffer =
      ap (λ (p : Result (List Bytes) × Framer). p.1.buffer) h in
    let m : framer.max_frame ≡ after.max_frame =
      ap (λ (p : Result (List Bytes) × Framer). p.1.max_frame) h in
    record {
      keeps =
          ap (λ (t : Bytes). concat frames ++ t) (sym b)
          ∙ feed_loop_keeps framer.max_frame (suc (length buffer)) [] frames buffer fuel r;
      framed = feed_loop-IsFramed framer.max_frame (suc (length buffer)) [] frames buffer fuel tt r;
      drained =
          ap₂ next_round (sym m) (sym b)
          ∙ feed_loop_ends framer.max_frame (suc (length buffer)) [] frames buffer fuel r;
      same_limit = sym m;
    }

-- A framer whose buffer holds no complete frame and no broken header, and whose limit is at least
-- 8, holds fewer bytes than its limit: a length field cannot make it buffer without bound.
pub pending-lt :
    (framer : Framer)
    → IsDrained framer
    → 8 ≤ framer.max_frame
    → length (pending framer) < framer.max_frame
unfolding pending next_round after_length cut_within
pending-lt framer d h = ground arith

prepend : List Bytes → Result (List Bytes) × Framer → Result (List Bytes) × Framer
prepend frames later = (prepended frames later.0, later.1)

chunks_after :
    Result (List Bytes) × Framer
    → (Framer → Result (List Bytes) × Framer)
    → Result (List Bytes) × Framer
chunks_after (ok frames, after) rest = prepend frames (rest after)
chunks_after (err e, after) rest = (err e, after)

-- One framer fed chunk by chunk, as `GrowattServer._read_loop` does.
pub feed_chunks : Framer → List Bytes → Result (List Bytes) × Framer
feed_chunks framer [] = (ok [], framer)
feed_chunks framer (chunk ∷ chunks) =
    chunks_after (feed framer chunk) (λ after. feed_chunks after chunks)

feed_chunks-cons_ok :
    (framer : Framer) (chunk : Bytes) (chunks frames : List Bytes)
    → (feed framer chunk).0 ≡ ok frames
    → (feed_chunks framer (chunk ∷ chunks)).0
      ≡ prepended frames (feed_chunks (feed framer chunk).1 chunks).0
unfolding feed_chunks chunks_after prepend
feed_chunks-cons_ok framer chunk chunks frames h = go (feed framer chunk) h
  where
    go :
        (fed : Result (List Bytes) × Framer)
        → fed.0 ≡ ok frames
        → (chunks_after fed (λ after. feed_chunks after chunks)).0
          ≡ prepended frames (feed_chunks fed.1 chunks).0
    go (ok fs, after) e = ap (λ (t : List Bytes). prepended t (feed_chunks after chunks).0) (cc)
    go (err x, after) e = cc

feed_chunks-cons_err :
    (framer : Framer) (chunk : Bytes) (chunks : List Bytes) (x : Error)
    → (feed framer chunk).0 ≡ err x
    → (feed_chunks framer (chunk ∷ chunks)).0 ≡ err x
unfolding feed_chunks chunks_after
feed_chunks-cons_err framer chunk chunks x h = go (feed framer chunk) h
  where
    go :
        (fed : Result (List Bytes) × Framer)
        → fed.0 ≡ err x
        → (chunks_after fed (λ after. feed_chunks after chunks)).0 ≡ err x
    go (ok fs, after) e = cc
    go (err x', after) e = e

pub feed-nil : (framer : Framer) → IsDrained framer → (feed framer []).0 ≡ ok []
unfolding feed feed_bytes
feed-nil framer d = rw (append-nil framer.buffer) (
    ap (λ (f : Fed). f.result)
      (feed_loop-wait framer.max_frame (suc (length framer.buffer)) [] framer.buffer d))

pub feed-IsDrained :
    (framer : Framer) (chunk : Bytes) (frames : List Bytes)
    → (feed framer chunk).0 ≡ ok frames
    → IsDrained (feed framer chunk).1
unfolding feed feed_bytes
feed-IsDrained framer chunk frames h =
    feed_loop_ends framer.max_frame (suc (length (framer.buffer ++ chunk))) [] frames
      (framer.buffer ++ chunk) (omega arith) h

pub feed-append :
    (framer : Framer) (chunk more : Bytes) (frames : List Bytes)
    → (feed framer chunk).0 ≡ ok frames
    → (feed framer (chunk ++ more)).0 ≡ prepended frames (feed (feed framer chunk).1 more).0
unfolding feed
feed-append framer chunk more frames h =
    ap (λ (t : Bytes). (feed_bytes framer.max_frame t).result)
      (sym (append_assoc framer.buffer chunk more))
    ∙ feed_bytes-append framer.max_frame frames (framer.buffer ++ chunk) more h

pub feed-append_raise :
    (framer : Framer) (chunk more : Bytes) (e : Error)
    → (feed framer chunk).0 ≡ err e
    → (feed framer (chunk ++ more)).0 ≡ err e
unfolding feed
feed-append_raise framer chunk more e h =
    ap (λ (t : Bytes). (feed_bytes framer.max_frame t).result)
      (sym (append_assoc framer.buffer chunk more))
    ∙ feed_bytes-append_raise framer.max_frame (framer.buffer ++ chunk) more e h

-- For a framer whose buffer holds no complete frame and no broken header: however a stream is cut
-- into chunks, feeding them one after the other gives the frames, or the exception, that feeding
-- the whole stream at once gives.
pub feed_chunks-eq-feed :
    (framer : Framer) (chunks : List Bytes)
    → IsDrained framer
    → (feed_chunks framer chunks).0 ≡ (feed framer (concat chunks)).0
feed_chunks-eq-feed framer [] d = unfold feed_chunks in sym (feed-nil framer d)
feed_chunks-eq-feed framer (chunk ∷ chunks) d = elim (Result-cases (feed framer chunk).0) [
  | inl (frames, h) ↦
      feed_chunks-cons_ok framer chunk chunks frames h
      ∙ ap (prepended frames)
          (feed_chunks-eq-feed (feed framer chunk).1 chunks (feed-IsDrained framer chunk frames h))
      ∙ sym (feed-append framer chunk (concat chunks) frames h)
  | inr (e, h) ↦
      feed_chunks-cons_err framer chunk chunks e h
      ∙ sym (feed-append_raise framer chunk (concat chunks) e h)
]

-- A framer with an empty buffer that is fed any number of whole frames, one behind the other,
-- returns exactly those frames and is as it was before.
pub feed-concat :
    (framer : Framer) (frames : List Bytes)
    → pending framer ≡ []
    → All (IsFramed framer.max_frame) frames
    → feed framer (concat frames) ≡ (ok frames, framer)
unfolding feed feed_bytes pending
feed-concat framer frames e h =
    let buffer : framer.buffer ++ concat frames ≡ concat frames =
      ap (λ (t : Bytes). t ++ concat frames) e in
    let run =
      ap (λ (t : Bytes). feed_loop framer.max_frame (suc (length t)) [] t) buffer
      ∙ feed_loop-concat framer.max_frame (suc (length (concat frames))) [] frames h
          (omega arith) in
    λ i. ((run i).result, record framer { buffer = (ap (λ (f : Fed). f.buffer) run ∙ sym e) i })
