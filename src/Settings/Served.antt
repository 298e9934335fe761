-- ===== src/Settings/Served.antt =====
-- The spans and the single reads of `read_registers`, over a channel to such a device.
use growatt_datalogger.Base.{
  ==_iff, All, Bool, Bool-cases, List, Option, Option-cases, [], ap, arith, contains, false,
  filterb, inl, inr, leb, ltb, none, refl, some, sym, ℕ, ◌&&◌, ◌+◌, ◌-◌, ◌==◌, ◌∙◌, ◌∷◌, ◌≡◌, ◌≤◌,
}
use growatt_datalogger.Base.Dict.{lookup, lookup-insert, update}
use growatt_datalogger.Commands.Reply.{CommandResponse}
use growatt_datalogger.Python.{Result, Str, ok}
use growatt_datalogger.Records.Parse.{words}
use growatt_datalogger.Settings.Bounded.{IsWord, filterb-IsWord}
use growatt_datalogger.Settings.Channel.{
  Channel, address, after_span, number_words, read_singles, read_span, send_read, span_words,
  update_option, update_wanted,
}
use growatt_datalogger.Settings.Device.{
  both-none, contains-filterb, length-words_from, lookup-update_wanted, merged, merged_twice,
  values_of, within, words_from,
}

module _ {S : Type 0} (channel : Channel S) (device : ℕ → Option ℕ) where
  -- The channel knows its datalogger, and answers a read of registers with their words, or with
  -- none where it lacks one of them.
  pub record Serves : Type 0 where
    pub serial : Str
    pub version : ℕ
    pub known : (s : S) → address channel s ≡ (ok (serial, version), s)
    pub serves :
        (start end : ℕ) (s : S)
        → start ≤ end
        → IsWord end
        → (response : CommandResponse) × (after : S) × (send_read channel serial version start
              (some end)
              s
            ≡ (ok response, after))
          × (response.values ≡ values_of (words_from device start (end + 1 - start)))

  abbrev pub numbered : ℕ → Option (List ℕ) → Option (List (ℕ × ℕ))
  numbered start none = none
  numbered start (some words) = some (number_words start words)

  span_words-values_of :
      (start end : ℕ) (words : Option (List ℕ))
      → words_from device start (end + 1 - start) ≡ words
      → start ≤ end
      → span_words start end (values_of words) ≡ numbered start words
  unfolding span_words
  span_words-values_of start end none e h =
      let short : (0 == end + 1 - start) ≡ false = ground arith in rw (short) refl
  span_words-values_of start end (some words) e h =
      let n = length-words_from device start (end + 1 - start) words e in rw ((==_iff _ _).1 n) refl

  paired : S → Option (List (ℕ × ℕ)) → Result (Option (List (ℕ × ℕ))) × S
  paired after words = (ok words, after)

  pub read_span-served :
      Serves
      → (start end : ℕ) (s : S) → start ≤ end
      → IsWord end
      → (after : S) × (read_span channel start end s
          ≡ (ok (numbered start (words_from device start (end + 1 - start))), after))
  unfolding read_span paired
  read_span-served serving start end s h b =
      let (response, after, answer, values) = serving.serves start end s h b in
      let span =
        ap (span_words start end) values
        ∙ span_words-values_of start end (words_from device start (end + 1 - start)) refl h in
      (after, rw (serving.known s, answer) (ap (paired after) span))

  -- One register's answer.
  single_merged :
      (start r : ℕ) (values : List (ℕ × ℕ))
      → lookup r
          (update_option values (numbered start (words_from device start (start + 1 - start))))
        ≡ merged device (start == r) r values
  unfolding update_option update number_words
  single_merged start r values =
      let one : start + 1 - start ≡ 1 = omega arith in
      ap (λ (n : ℕ). lookup r (update_option values (numbered start (words_from device start n))))
        one
      ∙ elim (Option-cases (device start)) [
        | inl e ↦ rw (e) (elim (Bool-cases (start == r)) [
          | inl same ↦
              let gone : device r ≡ none = ap device (sym ((==_iff start r).0 same)) ∙ e in
              rw (same, gone) refl
          | inr other ↦ rw (other) refl
        ])
        | inr (w, e) ↦
            rw (e, lookup-insert start r w values)
              (elim (Bool-cases (start == r)) [
                | inl same ↦
                    let here : device r ≡ some w = ap device (sym ((==_iff start r).0 same)) ∙ e in
                    rw (same, here) refl
                | inr other ↦ rw (other) refl
              ])
      ]

  unfoldable pub Reads : (ℕ → Bool) → List (ℕ × ℕ) → Result (List (ℕ × ℕ)) × S → Type 0
  Reads inside values (result, after) =
      (words : List (ℕ × ℕ)) × (result ≡ ok words)
      × ((r : ℕ) → lookup r words ≡ merged device (inside r) r values)

  read_singles-Reads :
      Serves
      → (rs : List ℕ) (values : List (ℕ × ℕ)) (s : S) → All IsWord rs
      → Reads (contains rs) values (read_singles channel rs values s)
  unfolding read_singles Reads
  read_singles-Reads serving [] values s k = (values, refl, λ r. refl)
  read_singles-Reads serving (x ∷ rs) values s k =
      let (after, e) = read_span-served serving x x s (omega arith) k.0 in
      let single = update_option values (numbered x (words_from device x (x + 1 - x))) in
      let (words, f, g) = read_singles-Reads serving rs single after k.1 in
      (
        words,
        rw (e) f,
        λ r.
            g r
            ∙ merged_twice device (contains rs r) (x == r) r single values
                (single_merged x r values),
      )

  missing_alone :
      (wanted : List ℕ) (start end r : ℕ) (values : List (ℕ × ℕ))
      → start ≡ end
      → words_from device start (end + 1 - start) ≡ none
      → lookup r values ≡ merged device (contains wanted r && within start end r) r values
  missing_alone wanted start end r values same e =
      let one : end + 1 - start ≡ 1 = omega arith in
      let gone : device start ≡ none =
        both-none (device start) (ap (words_from device start) (sym one) ∙ e) in
      elim (Bool-cases (contains wanted r && within start end r)) [
        | inl inside ↦
            let here : start ≡ r = ground arith in rw (inside, ap device (sym here) ∙ gone) refl
        | inr outside ↦ rw (outside) refl
      ]

  pub Reads-same :
      (inside outside : ℕ → Bool) (values : List (ℕ × ℕ)) (out : Result (List (ℕ × ℕ)) × S)
      → ((r : ℕ) → inside r ≡ outside r)
      → Reads inside values out
      → Reads outside values out
  unfolding Reads
  Reads-same inside outside values (result, after) same (words, e, f) =
      (words, e, λ r. f r ∙ ap (λ (b : Bool). merged device b r values) (same r))

  after_missing :
      (wanted : List ℕ) (start end : ℕ) (values : List (ℕ × ℕ)) (s : S)
      → Serves
      → All IsWord wanted
      → start ≤ end
      → words_from device start (end + 1 - start) ≡ none
      → Reads
          (λ r. contains wanted r && within start end r)
          values
          (after_span channel wanted start end values none s)
  unfolding after_span Reads
  after_missing wanted start end values s serving k h e = elim (Bool-cases (start == end)) [
    | inl alone ↦
        rw (alone) (
          values,
          refl,
          λ r. missing_alone wanted start end r values ((==_iff start end).0 alone) e,
        )
    | inr several ↦
        let singles = filterb (λ r. leb start r && leb r end) wanted in
        let read =
          read_singles-Reads serving singles values s
            (filterb-IsWord (λ r. leb start r && leb r end) wanted k) in
        rw (several) (
          Reads-same (contains singles) (λ r. contains wanted r && within start end r) values
            (read_singles channel singles values s)
            (contains-filterb (λ r. leb start r && leb r end) wanted) read)
  ]

  after_present :
      (wanted : List ℕ) (start end : ℕ) (words : List ℕ) (values : List (ℕ × ℕ)) (s : S)
      → start ≤ end
      → words_from device start (end + 1 - start) ≡ some words
      → Reads
          (λ r. contains wanted r && within start end r)
          values
          (after_span channel wanted start end values (some (number_words start words)) s)
  unfolding after_span Reads
  after_present wanted start end words values s h e = (
    update_wanted wanted values (number_words start words),
    refl,
    λ r.
        let same : (leb start r && ltb r (start + (end + 1 - start))) ≡ within start end r =
          ground arith in
        lookup-update_wanted device wanted start (end + 1 - start) words values r e
        ∙ ap (λ (b : Bool). merged device (contains wanted r && b) r values) same,
  )

  pub after_span-Reads :
      (wanted : List ℕ) (start end : ℕ) (words : Option (List ℕ)) (values : List (ℕ × ℕ)) (s : S)
      → Serves
      → All IsWord wanted
      → start ≤ end
      → words_from device start (end + 1 - start) ≡ words
      → Reads
          (λ r. contains wanted r && within start end r)
          values
          (after_span channel wanted start end values (numbered start words) s)
  after_span-Reads wanted start end none values s serving k h e =
      after_missing wanted start end values s serving k h e
  after_span-Reads wanted start end (some words) values s serving k h e =
      after_present wanted start end words values s h e
