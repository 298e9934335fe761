-- ===== src/Framing/Resume.antt =====
-- The loop of `feed` over a longer buffer goes on from where it stopped.
use growatt_datalogger.Base.{
  All, List, [], ap, append-nil, append_assoc, ap₂, arith, concat, drop, drop-append,
  drop-append_within, inl, inr, length, length-append, refl, suc, sym, take, take-append,
  take-append_within, zero, ℕ, ◌++◌, ◌+◌, ◌<◌, ◌∙◌, ◌∷◌, ◌≡◌,
}
use growatt_datalogger.Framing.{Fed, IsFramed, cut, feed_bytes, feed_loop, next_round, prepended}
use growatt_datalogger.Framing.Lengths.{
  cut-next_round, frame_length-append, next_round-cut, raise-append,
}
use growatt_datalogger.Framing.Loop.{
  Round-cases, after_cut, after_raise, after_wait, cut-drop-lt, feed_loop-buffer_le, feed_loop-cut,
  feed_loop-raise, feed_loop-wait, feed_loop_fuel,
}
use growatt_datalogger.Python.{Bytes, Error, err, ok}

module _ (max_frame : ℕ) where
  -- A cut of a longer buffer is the same cut.
  cut-append :
      (fuel : ℕ) (frames : List Bytes) (buffer more : Bytes) (total : ℕ)
      → next_round max_frame buffer ≡ cut total
      → feed_loop max_frame (suc fuel) frames (buffer ++ more)
        ≡ feed_loop max_frame fuel (frames ++ take total buffer ∷ []) (drop total buffer ++ more)
  cut-append fuel frames buffer more total c =
      let facts = next_round-cut max_frame buffer total c in
      let longer = length-append buffer more in
      let c' : next_round max_frame (buffer ++ more) ≡ cut total =
        cut-next_round max_frame (buffer ++ more) total (omega arith)
          (frame_length-append buffer more facts.0 ∙ facts.1) facts.2 (omega arith) in
      feed_loop-cut max_frame fuel frames (buffer ++ more) total c'
      ∙ ap₂ (λ (f r : Bytes). feed_loop max_frame fuel (frames ++ f ∷ []) r)
          (take-append_within buffer more total facts.3)
          (drop-append_within buffer more total facts.3)

  -- The loop over a longer buffer goes on from where the loop over its beginning stopped.
  pub feed_loop-append :
      (fuel : ℕ) (frames out : List Bytes) (buffer more : Bytes)
      → length buffer + length more < fuel
      → (feed_loop max_frame fuel frames buffer).result ≡ ok out
      → feed_loop max_frame fuel frames (buffer ++ more)
        ≡ feed_loop max_frame fuel out ((feed_loop max_frame fuel frames buffer).buffer ++ more)
  feed_loop-append zero frames out buffer more p h = elim p [ ]
  feed_loop-append (suc fuel) frames out buffer more p h =
      elim (Round-cases (next_round max_frame buffer)) [
        | inl w ↦
            rw
              (
                feed_loop-wait max_frame (suc fuel) frames buffer w,
                after_wait max_frame (suc fuel) frames out buffer w h,
              )
              refl
        | inr (inl (e, r)) ↦ after_raise max_frame fuel frames out buffer e r h
        | inr (inr (total, c)) ↦
            let d = cut-drop-lt max_frame buffer total c in
            let rest : Fed =
              feed_loop max_frame fuel (frames ++ take total buffer ∷ []) (drop total buffer) in
            let small =
              feed_loop-buffer_le max_frame fuel (frames ++ take total buffer ∷ [])
                (drop total buffer) (omega arith) in
            rw (feed_loop-cut max_frame fuel frames buffer total c) (
              cut-append fuel frames buffer more total c
              ∙ feed_loop-append fuel _ out (drop total buffer) more (omega arith)
                  (after_cut max_frame fuel frames buffer total (ok out) c h)
              ∙ feed_loop_fuel max_frame fuel (suc fuel) out (rest.buffer ++ more)
                  (omega (arith, length-append rest.buffer more))
                  (omega (arith, length-append rest.buffer more)))
      ]

  pub feed_loop-append_raise :
      (fuel : ℕ) (frames : List Bytes) (buffer more : Bytes) (e : Error)
      → length buffer + length more < fuel
      → (feed_loop max_frame fuel frames buffer).result ≡ err e
      → (feed_loop max_frame fuel frames (buffer ++ more)).result ≡ err e
  feed_loop-append_raise zero frames buffer more e p h = elim p [ ]
  feed_loop-append_raise (suc fuel) frames buffer more e p h =
      elim (Round-cases (next_round max_frame buffer)) [
        | inl w ↦
            absurd (
              cc (ap (λ (f : Fed). f.result) (feed_loop-wait max_frame (suc fuel) frames buffer w)))
        | inr (inl (e', r)) ↦
            let same : err e' ≡ err e =
              ap (λ (f : Fed). f.result) (sym (feed_loop-raise max_frame fuel frames buffer e' r))
              ∙ h in
            ap (λ (f : Fed). f.result)
              (feed_loop-raise max_frame fuel frames (buffer ++ more) e'
                (raise-append max_frame buffer more e' r))
            ∙ same
        | inr (inr (total, c)) ↦
            let d = cut-drop-lt max_frame buffer total c in
            ap (λ (f : Fed). f.result) (cut-append fuel frames buffer more total c)
            ∙ feed_loop-append_raise fuel _ (drop total buffer) more e (omega arith)
                (after_cut max_frame fuel frames buffer total (err e) c h)
      ]

  -- Frames collected earlier stand in front.
  feed_loop_prefix :
      (fuel : ℕ) (early frames : List Bytes) (buffer : Bytes)
      → (feed_loop max_frame fuel (early ++ frames) buffer).result
        ≡ prepended early (feed_loop max_frame fuel frames buffer).result
  unfolding feed_loop
  feed_loop_prefix zero early frames buffer = refl
  feed_loop_prefix (suc fuel) early frames buffer =
      elim (Round-cases (next_round max_frame buffer)) [
        | inl w ↦ rw (w, feed_loop) refl
        | inr (inl (e, r)) ↦ rw (r, feed_loop) refl
        | inr (inr (total, c)) ↦
            rw (c, feed_loop)
              (ap (λ (t : List Bytes). (feed_loop max_frame fuel t (drop total buffer)).result)
                  (append_assoc early frames (take total buffer ∷ []))
                ∙ feed_loop_prefix fuel early (frames ++ take total buffer ∷ [])
                    (drop total buffer))
      ]

  pub feed_bytes-append :
      (frames : List Bytes) (buffer more : Bytes)
      → (feed_bytes max_frame buffer).result ≡ ok frames
      → (feed_bytes max_frame (buffer ++ more)).result
        ≡ prepended frames
            (feed_bytes max_frame ((feed_bytes max_frame buffer).buffer ++ more)).result
  unfolding feed_bytes
  feed_bytes-append frames buffer more h =
      let big : ℕ = suc (length (buffer ++ more)) in
      let longer = length-append buffer more in
      let same =
        feed_loop_fuel max_frame big (suc (length buffer)) [] buffer (omega arith) (omega arith) in
      let rest : Bytes = (feed_loop max_frame (suc (length buffer)) [] buffer).buffer in
      let small = feed_loop-buffer_le max_frame (suc (length buffer)) [] buffer (omega arith) in
      ap (λ (f : Fed). f.result)
        (feed_loop-append big [] frames buffer more (omega arith)
            (ap (λ (f : Fed). f.result) same ∙ h)
          ∙ ap (λ (f : Fed). feed_loop max_frame big frames (f.buffer ++ more)) same
          ∙ feed_loop_fuel max_frame big (suc (length (rest ++ more))) frames (rest ++ more)
              (omega (arith, length-append rest more)) (omega arith)
          ∙ ap
              (λ (t : List Bytes).
                feed_loop max_frame (suc (length (rest ++ more))) t (rest ++ more))
              (sym (append-nil frames)))
      ∙ feed_loop_prefix (suc (length (rest ++ more))) frames [] (rest ++ more)

  pub feed_bytes-append_raise :
      (buffer more : Bytes) (e : Error)
      → (feed_bytes max_frame buffer).result ≡ err e
      → (feed_bytes max_frame (buffer ++ more)).result ≡ err e
  unfolding feed_bytes
  feed_bytes-append_raise buffer more e h =
      let big : ℕ = suc (length (buffer ++ more)) in
      let longer = length-append buffer more in
      let same =
        feed_loop_fuel max_frame big (suc (length buffer)) [] buffer (omega arith) (omega arith) in
      feed_loop-append_raise big [] buffer more e (omega arith)
        (ap (λ (f : Fed). f.result) same ∙ h)

  framed-next_round :
      (frame more : Bytes)
      → IsFramed max_frame frame
      → next_round max_frame (frame ++ more) ≡ cut (length frame)
  framed-next_round frame more h =
      let longer = length-append frame more in
      cut-next_round max_frame (frame ++ more) (length frame) (omega (arith, h.header))
        (frame_length-append frame more h.header ∙ h.declared) h.limit (omega arith)

  pub feed_loop-concat :
      (fuel : ℕ) (early frames : List Bytes)
      → All (IsFramed max_frame) frames
      → length (concat frames) < fuel
      → feed_loop max_frame fuel early (concat frames)
        ≡ record { result = ok (early ++ frames); buffer = [] }
  feed_loop-concat fuel early [] h p =
      feed_loop-wait max_frame fuel early [] (unfold next_round in refl)
      ∙ ap (λ (t : List Bytes). record { result = ok t; buffer = [] }) (sym (append-nil early))
  feed_loop-concat zero early (frame ∷ frames) h p = elim p [ ]
  feed_loop-concat (suc fuel) early (frame ∷ frames) h p =
      let c = framed-next_round frame (concat frames) h.0 in
      let longer = length-append frame (concat frames) in
      feed_loop-cut max_frame fuel early (frame ++ concat frames) (length frame) c
      ∙ ap₂ (λ (f r : Bytes). feed_loop max_frame fuel (early ++ f ∷ []) r)
          (take-append frame (concat frames) (length frame) refl)
          (drop-append frame (concat frames) (length frame) refl)
      ∙ feed_loop-concat fuel (early ++ frame ∷ []) frames h.1 (omega (arith, h.0.header))
      ∙ ap (λ (t : List Bytes). record { result = ok t; buffer = [] })
          (append_assoc early (frame ∷ []) frames)
