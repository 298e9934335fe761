-- ===== src/Server/Stream.antt =====
-- The read loop over a whole stream: what the session sees does not depend on how TCP cuts it.
use growatt_datalogger.Base.{
  All, Bool, List, [], ap, false, if◌then◌else◌, inl, inr, none, refl, suc, sym, ℕ, ◌++◌, ◌∙◌, ◌∷◌,
  ◌≡◌,
}
use growatt_datalogger.Framing.{Framer, feed, prepended}
use growatt_datalogger.Framing.Stream.{
  IsDrained, feed-IsDrained, feed-append, feed-append_raise, feed-nil,
}
use growatt_datalogger.Python.{Bytes, Result, Result-cases, err, is_empty, ok}
use growatt_datalogger.Relay.{Upstream}
use growatt_datalogger.Server.Link.{
  Link, Read, after_fed, after_frames, chunk, continue_loop, goes_on, handle_all, handle_fed,
  process_chunk, read_loop, read_round, relay_chunk, take_over, with_world,
}
use growatt_datalogger.Session.Handle.{handle_frame}
use growatt_datalogger.Session.State.{Action, Env, World, continue}

abbrev pub reads_of : List (Upstream × Bytes) → List Read
reads_of [] = []
reads_of (c ∷ chunks) = chunk c.0 c.1 ∷ reads_of chunks

abbrev pub stream_of : List (Upstream × Bytes) → Bytes
stream_of [] = []
stream_of (c ∷ chunks) = c.1 ++ stream_of chunks

-- No read is empty, which would be the end of the stream.
abbrev pub NoneEmpty : List (Upstream × Bytes) → Type 0
NoneEmpty = All (λ (c : Upstream × Bytes). is_empty c.1 ≡ false)

abbrev pub alone : Framer → World → Link
alone framer w = record { framer = framer; world = w; relay = none }

-- What the loop does behind a chunk's frames.
abbrev go_on :
    (ℕ → Env) → ℕ → List Read → Framer → Result (Unit {0}) × World → Result (Unit {0}) × Link
go_on env n reads framer (ok u, w) = read_loop env n reads (alone framer w)
go_on env n reads framer (err e, w) = (err e, alone framer w)

go_on-eq :
    (env : ℕ → Env) (n : ℕ) (reads : List Read) (framer framer' : Framer) (w' : World)
    (out : Result (Unit {0}) × World)
    → continue_loop (goes_on (with_world (alone framer' w') framer out)) (read_loop env n reads)
      ≡ go_on env n reads framer out
go_on-eq env n reads framer framer' w' (ok u, w) = refl
go_on-eq env n reads framer framer' w' (err e, w) = refl

read_round-alone :
    (env : ℕ → Env) (n : ℕ) (up : Upstream) (content : Bytes) (framer : Framer) (w : World)
    → is_empty content ≡ false
    → read_round env n (chunk up content) (alone framer w)
      ≡ goes_on (
          with_world
            (alone framer w)
            (feed framer content).1
            (handle_fed env n (feed framer content).0 w))
unfolding read_round relay_chunk take_over process_chunk
read_round-alone env n up content framer w h =
    ap
      (λ (b : Bool).
        if b
        then (ok false, alone framer w)
        else goes_on (
            with_world (alone framer w) (feed framer content).1
              (handle_fed env n (feed framer content).0 w)))
      h

read_loop-chunk :
    (env : ℕ → Env) (n : ℕ) (up : Upstream) (content : Bytes) (reads : List Read) (framer : Framer)
    (w : World) (frames : List Bytes)
    → is_empty content ≡ false
    → (feed framer content).0 ≡ ok frames
    → read_loop env n (chunk up content ∷ reads) (alone framer w)
      ≡ go_on env (after_frames n frames) reads (feed framer content).1 (handle_all env n frames w)
unfolding read_loop
read_loop-chunk env n up content reads framer w frames h f =
    ap
      (λ (o : Result Bool × Link).
        continue_loop o (read_loop env (after_fed n (feed framer content).0) reads))
      (read_round-alone env n up content framer w h)
    ∙ ap
        (λ (r : Result (List Bytes)).
          continue_loop
            (goes_on (with_world (alone framer w) (feed framer content).1 (handle_fed env n r w)))
            (read_loop env (after_fed n r) reads))
        f
    ∙ go_on-eq env (after_frames n frames) reads (feed framer content).1 framer w
        (handle_all env n frames w)

continue_assoc :
    (out : Result (Unit {0}) × World) (both first second : Action (Unit {0}))
    → ((w : World) → both w ≡ continue (first w) (λ u. second))
    → continue out (λ u. both) ≡ continue (continue out (λ u. first)) (λ u. second)
continue_assoc (ok u, w) both first second h = h w
continue_assoc (err e, w) both first second h = refl

handle_all-append :
    (env : ℕ → Env) (n : ℕ) (xs ys : List Bytes) (w : World)
    → handle_all env n (xs ++ ys) w
      ≡ continue (handle_all env n xs w) (λ u. handle_all env (after_frames n xs) ys)
unfolding handle_all
handle_all-append env n [] ys w = refl
handle_all-append env n (x ∷ xs) ys w =
    continue_assoc (handle_frame (env n) (record { raw = x }) w) (handle_all env (suc n) (xs ++ ys))
      (handle_all env (suc n) xs) (handle_all env (after_frames (suc n) xs) ys)
      (handle_all-append env (suc n) xs ys)

-- What the client of a connection sees of the loop: its result and its world.
abbrev pub seen : Result (Unit {0}) × Link → Result (Unit {0}) × World
seen (result, link) = (result, link.world)

go_on-seen :
    (env : ℕ → Env) (n : ℕ) (reads : List Read) (framer : Framer) (out : Result (Unit {0}) × World)
    (rest : Action (Unit {0}))
    → ((w : World) → seen (read_loop env n reads (alone framer w)) ≡ rest w)
    → seen (go_on env n reads framer out) ≡ continue out (λ u. rest)
go_on-seen env n reads framer (ok u, w) rest h = h w
go_on-seen env n reads framer (err e, w) rest h = refl

-- A whole result that starts with some frames is theirs and those of the rest.
prepended-ok :
    (early frames : List Bytes) (later : Result (List Bytes))
    → prepended early later ≡ ok frames
    → (rest : List Bytes) × (later ≡ ok rest) × (frames ≡ early ++ rest)
prepended-ok early frames (ok rest) h = (rest, refl, cc)
prepended-ok early frames (err e) h = cc

abbrev IsHandled : (ℕ → Env) → ℕ → List (Upstream × Bytes) → Framer → List Bytes → Type 0
IsHandled env n chunks framer frames =
    (w : World)
    → seen (read_loop env n (reads_of chunks) (alone framer w)) ≡ handle_all env n frames w

read_loop-cons :
    (env : ℕ → Env) (n : ℕ) (c : Upstream × Bytes) (chunks : List (Upstream × Bytes))
    (framer : Framer) (early rest : List Bytes)
    → is_empty c.1 ≡ false
    → (feed framer c.1).0 ≡ ok early
    → IsHandled env (after_frames n early) chunks (feed framer c.1).1 rest
    → IsHandled env n (c ∷ chunks) framer (early ++ rest)
read_loop-cons env n c chunks framer early rest h f k w =
    ap seen (read_loop-chunk env n c.0 c.1 (reads_of chunks) framer w early h f)
    ∙ go_on-seen env (after_frames n early) (reads_of chunks) (feed framer c.1).1
        (handle_all env n early w) (handle_all env (after_frames n early) rest) k
    ∙ sym (handle_all-append env n early rest w)

read_loop-none :
    (env : ℕ → Env) (n : ℕ) (framer : Framer) (frames : List Bytes)
    → [] ≡ frames
    → IsHandled env n [] framer frames
unfolding read_loop handle_all
read_loop-none env n framer frames e w = rw (← e) refl

-- For a connection without a relay whose framer is drained, a stream whose bytes the framer cuts
-- into these frames, and any division of it into reads that are not empty: the read loop ends as
-- handling the frames one after the other does, with the same session and the same events,
-- whatever the session does with them and whether or not an exception ends the handling.
pub read_loop-handle_all :
    (env : ℕ → Env) (n : ℕ) (chunks : List (Upstream × Bytes)) (framer : Framer)
    (frames : List Bytes)
    → IsDrained framer
    → NoneEmpty chunks
    → (feed framer (stream_of chunks)).0 ≡ ok frames
    → (w : World)
    → seen (read_loop env n (reads_of chunks) (alone framer w)) ≡ handle_all env n frames w
read_loop-handle_all env n [] framer frames d h f =
    let e : ok [] ≡ ok frames = sym (feed-nil framer d) ∙ f in
    read_loop-none env n framer frames (cc e)
read_loop-handle_all env n (c ∷ chunks) framer frames d h f =
    elim (Result-cases (feed framer c.1).0) [
      | inl (early, fc) ↦
          let (rest, later, split) =
            prepended-ok early frames (feed (feed framer c.1).1 (stream_of chunks)).0
              (sym (feed-append framer c.1 (stream_of chunks) early fc) ∙ f) in
          let k = read_loop-cons env n c chunks framer early rest h.0 fc (
            read_loop-handle_all env (after_frames n early) chunks (feed framer c.1).1 rest
              (feed-IsDrained framer c.1 early fc) h.1 later) in
          rw (split) k
      | inr (e, fe) ↦ absurd (cc (feed-append_raise framer c.1 (stream_of chunks) e fe))
    ]
