-- ===== src/Framing/Loop.antt =====
-- The loop of `feed`, round by round: its fuel is never used up, and it loses no byte.
use native.Mathlib.Nat.{le_refl}
use growatt_datalogger.Base.{
  All, All-append, List, [], ap, append-nil, append_assoc, arith, concat, drop, inl, inr, length,
  length-drop, length-take, refl, suc, sym, take, take-append-drop, zero, ℕ, ◌++◌, ◌<◌, ◌∙◌, ◌∷◌,
  ◌≡◌, ◌≤◌, ◌⊎◌,
}
use growatt_datalogger.Framing.{
  Fed, IsFramed, Round, cut, feed_loop, frame_length, next_round, raise, wait,
}
use growatt_datalogger.Framing.Lengths.{frame_length-append, le-frame_length, next_round-cut}
use growatt_datalogger.Python.{Bytes, Error, Result, err, ok}

pub Round-cases :
    (r : Round) → (r ≡ wait) ⊎ ((e : Error) × (r ≡ raise e)) ⊎ ((total : ℕ) × (r ≡ cut total))
Round-cases wait = inl refl
Round-cases (raise e) = inr (inl (e, refl))
Round-cases (cut total) = inr (inr (total, refl))

module _ (max_frame : ℕ) where
  pub feed_loop-wait :
      (fuel : ℕ) (frames : List Bytes) (buffer : Bytes)
      → next_round max_frame buffer ≡ wait
      → feed_loop max_frame fuel frames buffer ≡ record { result = ok frames; buffer = buffer }
  unfolding feed_loop
  feed_loop-wait zero frames buffer h = refl
  feed_loop-wait (suc fuel) frames buffer h = rw (h, feed_loop)

  pub feed_loop-raise :
      (fuel : ℕ) (frames : List Bytes) (buffer : Bytes) (e : Error)
      → next_round max_frame buffer ≡ raise e
      → feed_loop max_frame (suc fuel) frames buffer ≡ record { result = err e; buffer = buffer }
  unfolding feed_loop
  feed_loop-raise fuel frames buffer e h = rw (h, feed_loop)

  pub feed_loop-cut :
      (fuel : ℕ) (frames : List Bytes) (buffer : Bytes) (total : ℕ)
      → next_round max_frame buffer ≡ cut total
      → feed_loop max_frame (suc fuel) frames buffer
        ≡ feed_loop max_frame fuel (frames ++ take total buffer ∷ []) (drop total buffer)
  unfolding feed_loop
  feed_loop-cut fuel frames buffer total h = rw (h, feed_loop)

  -- What is left after a cut is shorter.
  pub cut-drop-lt :
      (buffer : Bytes) (total : ℕ)
      → next_round max_frame buffer ≡ cut total
      → length (drop total buffer) < length buffer
  cut-drop-lt buffer total h =
      let c = next_round-cut max_frame buffer total h in
      omega (arith, length-drop total buffer, le-frame_length buffer total c.1)

  -- Any two amounts of fuel above the buffer's length give the same.
  pub feed_loop_fuel :
      (m n : ℕ) (frames : List Bytes) (buffer : Bytes)
      → length buffer < m
      → length buffer < n
      → feed_loop max_frame m frames buffer ≡ feed_loop max_frame n frames buffer
  feed_loop_fuel zero n frames buffer p q = elim p [ ]
  feed_loop_fuel (suc m) zero frames buffer p q = elim q [ ]
  feed_loop_fuel (suc m) (suc n) frames buffer p q =
      elim (Round-cases (next_round max_frame buffer)) [
        | inl w ↦
            feed_loop-wait (suc m) frames buffer w ∙ sym (feed_loop-wait (suc n) frames buffer w)
        | inr (inl (e, r)) ↦
            feed_loop-raise m frames buffer e r ∙ sym (feed_loop-raise n frames buffer e r)
        | inr (inr (total, c)) ↦
            let d = cut-drop-lt buffer total c in
            feed_loop-cut m frames buffer total c
            ∙ feed_loop_fuel m n _ (drop total buffer) (omega arith) (omega arith)
            ∙ sym (feed_loop-cut n frames buffer total c)
      ]

  -- The loop ends by its own test: either an exception, or a buffer that must wait for more.
  pub feed_loop_ends :
      (fuel : ℕ) (frames out : List Bytes) (buffer : Bytes)
      → length buffer < fuel
      → (feed_loop max_frame fuel frames buffer).result ≡ ok out
      → next_round max_frame (feed_loop max_frame fuel frames buffer).buffer ≡ wait
  feed_loop_ends zero frames out buffer p h = elim p [ ]
  feed_loop_ends (suc fuel) frames out buffer p h =
      elim (Round-cases (next_round max_frame buffer)) [
        | inl w ↦ rw (feed_loop-wait (suc fuel) frames buffer w) w
        | inr (inl (e, r)) ↦
            cc (ap (λ (f : Fed). f.result) (feed_loop-raise fuel frames buffer e r))
        | inr (inr (total, c)) ↦
            let d = cut-drop-lt buffer total c in
            let step = feed_loop-cut fuel frames buffer total c in
            rw step (
              feed_loop_ends fuel _ out (drop total buffer) (omega arith)
                (ap (λ (f : Fed). f.result) (sym step) ∙ h))
      ]

  -- The answer of a round that cuts is the answer of the loop over the rest.
  pub after_cut :
      (fuel : ℕ) (frames : List Bytes) (buffer : Bytes) (total : ℕ) (r : Result (List Bytes))
      → next_round max_frame buffer ≡ cut total
      → (feed_loop max_frame (suc fuel) frames buffer).result ≡ r
      → (feed_loop max_frame fuel (frames ++ take total buffer ∷ []) (drop total buffer)).result ≡ r
  after_cut fuel frames buffer total r c h =
      ap (λ (f : Fed). f.result) (sym (feed_loop-cut fuel frames buffer total c)) ∙ h

  pub after_wait :
      (fuel : ℕ) (frames out : List Bytes) (buffer : Bytes)
      → next_round max_frame buffer ≡ wait
      → (feed_loop max_frame fuel frames buffer).result ≡ ok out
      → frames ≡ out
  after_wait fuel frames out buffer w h =
      cc (ap (λ (f : Fed). f.result) (feed_loop-wait fuel frames buffer w))

  pub after_raise {κ} :
      {P : Type κ} (fuel : ℕ) (frames out : List Bytes) (buffer : Bytes) (e : Error)
      → next_round max_frame buffer ≡ raise e
      → (feed_loop max_frame (suc fuel) frames buffer).result ≡ ok out
      → P
  after_raise fuel frames out buffer e r h =
      absurd (cc (ap (λ (f : Fed). f.result) (feed_loop-raise fuel frames buffer e r)))

  pub concat-snoc :
      (frames : List Bytes) (frame : Bytes) → concat (frames ++ frame ∷ []) ≡ concat frames ++ frame
  concat-snoc [] frame = append-nil frame
  concat-snoc (f ∷ frames) frame =
      rw (concat-snoc frames frame) (sym (append_assoc f (concat frames) frame))

  -- Nothing is lost: the frames and the buffer, one after the other, are what was fed.
  pub feed_loop_keeps :
      (fuel : ℕ) (frames out : List Bytes) (buffer : Bytes)
      → length buffer < fuel
      → (feed_loop max_frame fuel frames buffer).result ≡ ok out
      → concat out ++ (feed_loop max_frame fuel frames buffer).buffer ≡ concat frames ++ buffer
  feed_loop_keeps zero frames out buffer p h = elim p [ ]
  feed_loop_keeps (suc fuel) frames out buffer p h =
      elim (Round-cases (next_round max_frame buffer)) [
        | inl w ↦
            rw
              (
                feed_loop-wait (suc fuel) frames buffer w,
                after_wait (suc fuel) frames out buffer w h,
              )
              refl
        | inr (inl (e, r)) ↦ after_raise fuel frames out buffer e r h
        | inr (inr (total, c)) ↦
            let d = cut-drop-lt buffer total c in
            rw (feed_loop-cut fuel frames buffer total c) (
              feed_loop_keeps fuel _ out (drop total buffer) (omega arith)
                (after_cut fuel frames buffer total (ok out) c h)
              ∙ ap (λ (t : Bytes). t ++ drop total buffer) (concat-snoc frames (take total buffer))
              ∙ append_assoc (concat frames) (take total buffer) (drop total buffer)
              ∙ ap (λ (t : Bytes). concat frames ++ t) (take-append-drop total buffer))
      ]

  -- A frame that is cut off has the length that its own header declares.
  cut-IsFramed :
      (buffer : Bytes) (total : ℕ)
      → next_round max_frame buffer ≡ cut total
      → IsFramed max_frame (take total buffer)
  cut-IsFramed buffer total c =
      let facts = next_round-cut max_frame buffer total c in
      let eight = le-frame_length buffer total facts.1 in
      let size : length (take total buffer) ≡ total = omega (arith, length-take total buffer) in
      record {
        header = omega arith;
        declared =
            sym (frame_length-append (take total buffer) (drop total buffer) (omega arith))
            ∙ ap frame_length (take-append-drop total buffer)
            ∙ facts.1
            ∙ ap ok (sym size);
        limit = omega arith;
      }

  pub feed_loop-IsFramed :
      (fuel : ℕ) (frames out : List Bytes) (buffer : Bytes)
      → length buffer < fuel
      → All (IsFramed max_frame) frames
      → (feed_loop max_frame fuel frames buffer).result ≡ ok out
      → All (IsFramed max_frame) out
  feed_loop-IsFramed zero frames out buffer p a h = elim p [ ]
  feed_loop-IsFramed (suc fuel) frames out buffer p a h =
      elim (Round-cases (next_round max_frame buffer)) [
        | inl w ↦ rw (← after_wait (suc fuel) frames out buffer w h) a
        | inr (inl (e, r)) ↦ after_raise fuel frames out buffer e r h
        | inr (inr (total, c)) ↦
            let d = cut-drop-lt buffer total c in
            feed_loop-IsFramed fuel _ out (drop total buffer) (omega arith)
              (All-append (IsFramed max_frame) frames _ a (cut-IsFramed buffer total c, tt))
              (after_cut fuel frames buffer total (ok out) c h)
      ]

  pub feed_loop-buffer_le :
      (fuel : ℕ) (frames : List Bytes) (buffer : Bytes)
      → length buffer < fuel
      → length (feed_loop max_frame fuel frames buffer).buffer ≤ length buffer
  feed_loop-buffer_le zero frames buffer p = elim p [ ]
  feed_loop-buffer_le (suc fuel) frames buffer p =
      elim (Round-cases (next_round max_frame buffer)) [
        | inl w ↦ rw (feed_loop-wait (suc fuel) frames buffer w) (le_refl _)
        | inr (inl (e, r)) ↦ rw (feed_loop-raise fuel frames buffer e r) (le_refl _)
        | inr (inr (total, c)) ↦
            let d = cut-drop-lt buffer total c in
            rw (feed_loop-cut fuel frames buffer total c) (
              omega (
                arith,
                feed_loop-buffer_le fuel (frames ++ take total buffer ∷ []) (drop total buffer)
                    (omega arith),
              ))
      ]
