-- ===== src/Settings/Whole.antt =====
-- `read_registers` against reading each register on its own.
use growatt_datalogger.Base.{
  All, Bool, Bool-cases, List, Option, [], ap, arith, contains, false, if◌then◌else◌, inl, inr,
  none, refl, some, true, ℕ, ◌&&◌, ◌+◌, ◌-◌, ◌||◌, ◌∙◌, ◌∷◌, ◌≡◌,
}
use growatt_datalogger.Base.Dict.{lookup}
use growatt_datalogger.Python.{Result, ok}
use growatt_datalogger.Records.Parse.{registers, words}
use growatt_datalogger.Settings.Bounded.{
  EndsInWord, IsWord, read_ranges-EndsInWord, sorted_set-IsWord,
}
use growatt_datalogger.Settings.Channel.{Channel, after_span, read_registers, read_runs, resume}
use growatt_datalogger.Settings.Cover.{IsRun, contains-sorted_set, covered, read_ranges-covered}
use growatt_datalogger.Settings.Device.{merged, merged_twice, or_else, within, words_from}
use growatt_datalogger.Settings.Ranges.{max_range_gap, max_range_span, read_ranges, sorted_set}
use growatt_datalogger.Settings.Served.{Reads, Serves, after_span-Reads, numbered, read_span-served}

module _ {S : Type 0} (channel : Channel S) (device : ℕ → Option ℕ) where
  both_parts :
      (wanted first rest : Bool) → (wanted && first || wanted && rest) ≡ (wanted && (first || rest))
  both_parts true first rest = refl
  both_parts false first rest = refl

  none_covered :
      (b : Bool) (r : ℕ) (values : List (ℕ × ℕ))
      → lookup r values ≡ merged device (b && false) r values
  none_covered true r values = refl
  none_covered false r values = refl

  -- What the loop does behind one run.
  then_runs : List ℕ → List (ℕ × ℕ) → Result (List (ℕ × ℕ)) × S → Result (List (ℕ × ℕ)) × S
  then_runs wanted runs out = resume out (read_runs channel wanted runs)

  then_runs-Reads :
      (wanted : List ℕ) (runs : List (ℕ × ℕ)) (start end : ℕ) (values : List (ℕ × ℕ))
      (out : Result (List (ℕ × ℕ)) × S)
      → Reads channel device (λ r. contains wanted r && within start end r) values out
      → ((later : List (ℕ × ℕ)) (s : S)
          → Reads channel device
              (λ r. contains wanted r && covered r runs)
              later
              (read_runs channel wanted runs later s))
      → Reads channel device
          (λ r. contains wanted r && (within start end r || covered r runs))
          values
          (then_runs wanted runs out)
  unfolding then_runs Reads
  then_runs-Reads wanted runs start end values (result, after) (later, e, f) rest =
      let (words, g, k) = rest later after in
      (
        words,
        rw (e) g,
        λ r.
            k r
            ∙ merged_twice device (contains wanted r && covered r runs)
                (contains wanted r && within start end r) r later values (f r)
            ∙ ap (λ (b : Bool). merged device b r values)
                (both_parts (contains wanted r) (within start end r) (covered r runs)),
      )

  no_runs-Reads :
      (wanted : List ℕ) (values : List (ℕ × ℕ)) (s : S)
      → Reads channel device (λ r. contains wanted r && false) values (ok values, s)
  unfolding Reads
  no_runs-Reads wanted values s = (values, refl, λ r. none_covered (contains wanted r) r values)

  read_runs-Reads :
      (max_span : ℕ) (wanted : List ℕ) (runs : List (ℕ × ℕ)) (values : List (ℕ × ℕ)) (s : S)
      → Serves channel device
      → All (IsRun max_span) runs
      → All EndsInWord runs
      → All IsWord wanted
      → Reads channel device
          (λ r. contains wanted r && covered r runs)
          values
          (read_runs channel wanted runs values s)
  unfolding read_runs then_runs
  read_runs-Reads max_span wanted [] values s serving h b k = no_runs-Reads wanted values s
  read_runs-Reads max_span wanted ((start, end) ∷ runs) values s serving h b k =
      let (after, e) = read_span-served channel device serving start end s h.0.ordered b.0 in
      let words = words_from device start (end + 1 - start) in
      rw (e) (
        then_runs-Reads wanted runs start end values
          (after_span channel wanted start end values (numbered channel device start words) after)
          (after_span-Reads channel device wanted start end words values after serving k h.0.ordered
            refl)
          (λ later t. read_runs-Reads max_span wanted runs later t serving h.1 b.1 k))

  with_result :
      (out : Result (List (ℕ × ℕ)) × S) (words : List (ℕ × ℕ))
      → out.0 ≡ ok words
      → out ≡ (ok words, out.1)
  with_result (result, after) words e = ap (λ (r : Result (List (ℕ × ℕ))). (r, after)) e

  or_else-none : (word : Option ℕ) → or_else word none ≡ word
  or_else-none none = refl
  or_else-none (some w) = refl

  all_covered :
      (registers : List ℕ) (r : ℕ) (in_runs : Bool)
      → (contains (sorted_set registers) r ≡ true → in_runs ≡ true)
      → merged device (contains (sorted_set registers) r && in_runs) r []
        ≡ (if contains registers r then device r else none)
  unfolding lookup
  all_covered registers r in_runs h =
      let same = contains-sorted_set r registers in
      elim (Bool-cases (contains registers r)) [
        | inl e ↦ rw (h (same ∙ e), same, e) (or_else-none (device r))
        | inr e ↦ rw (same, e) refl
      ]

  -- For a channel that knows its datalogger and answers a read of a run of registers with their
  -- words, or with no words where the device lacks one of them, and registers below 65536 in
  -- whatever order and however often each is named: reading them together succeeds, and gives
  -- exactly the words that the device has for them. Those that share a run with a missing one are
  -- not lost.
  pub read_registers-whole :
      (registers : List ℕ) (s : S)
      → Serves channel device
      → All IsWord registers
      → (words : List (ℕ × ℕ)) × (after : S) × (read_registers channel registers s
          ≡ (ok words, after))
        × ((r : ℕ) → lookup r words ≡ (if contains registers r then device r else none))
  unfolding read_registers Reads
  read_registers-whole registers s serving words_only =
      let wanted = sorted_set registers in
      let bounded = sorted_set-IsWord registers words_only in
      let runs = read_ranges max_range_span max_range_gap wanted in
      let cover = read_ranges-covered max_range_span max_range_gap wanted (omega arith) in
      let (words, e, f) =
        read_runs-Reads max_range_span wanted runs [] s serving cover.0
          (read_ranges-EndsInWord max_range_span max_range_gap wanted bounded) bounded in
      let out = read_runs channel wanted runs [] s in
      (
        words,
        out.1,
        with_result out words e,
        λ r. f r ∙ all_covered registers r (covered r runs) (cover.1 r),
      )
