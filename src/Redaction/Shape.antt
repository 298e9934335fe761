-- ===== src/Redaction/Shape.antt =====
-- What `redact` keeps of a frame, and which frames it leaves with a valid checksum.
use growatt_datalogger.Base.{
  Bool-cases, List, Option, [], ap, arith, inl, inr, leb, leb→le, length, length-take, le→leb, map,
  none, refl, some, subst, suc, sym, take, true, zero, ℕ, ◌%◌, ◌+◌, ◌-◌, ◌<◌, ◌∙◌, ◌∷◌, ◌≡◌, ◌≤◌,
}
use growatt_datalogger.Crypt.{header_length, key}
use growatt_datalogger.Python.{Bytes, IsBytes, ok, str_eq}
use growatt_datalogger.Python.Names.{insert_name, lookup_name, lookup_name-insert_name, str_eq→eq}
use growatt_datalogger.Python.Roundtrip.{IsBytes-take}
use growatt_datalogger.Redaction.{
  Pseudonymiser, alphabet_at, alphabet_length, finditer, longest_serial, remember, replace,
  replace_all, replacement_for, run_at, run_length, shortest_serial, splice,
}
use growatt_datalogger.Redaction.Edits.{
  Edited, Edited-refl, Edited-trans, splice-Edited, splice-IsBytes,
}
use growatt_datalogger.Relay.{start}

-- A match found in the first `size` bytes: of 8 to 16 bytes, within them.
pub record IsMatch (from to : ℕ) (start : ℕ) (serial : Bytes) : Type 0 where
  pub low : from ≤ start
  pub high : start + length serial ≤ to
  pub long : shortest_serial ≤ length serial
  pub short : length serial ≤ longest_serial
  pub bytes : IsBytes serial

abbrev pub Matches : ℕ → ℕ → List (ℕ × Bytes) → Type 0
Matches from to [] = Unit
Matches from to ((start, serial) ∷ matches) = IsMatch from to start serial × Matches from to matches

Matches-later :
    (from to : ℕ) (matches : List (ℕ × Bytes))
    → Matches (suc from) to matches
    → Matches from to matches
Matches-later from to [] h = tt
Matches-later from to ((start, serial) ∷ matches) h = (
  record {
    low = omega (arith, h.0.low);
    high = h.0.high;
    long = h.0.long;
    short = h.0.short;
    bytes = h.0.bytes;
  },
  Matches-later from to matches h.1,
)

run_length-le : (most : ℕ) (bs : Bytes) → run_length most bs ≤ most
unfolding run_length
run_length-le zero bs = omega arith
run_length-le (suc most) [] = omega arith
run_length-le (suc most) (b ∷ bs) = ground (arith, run_length-le most bs)

run_length-within : (most : ℕ) (bs : Bytes) → run_length most bs ≤ length bs
unfolding run_length
run_length-within zero bs = omega arith
run_length-within (suc most) [] = omega arith
run_length-within (suc most) (b ∷ bs) = ground (arith, run_length-within most bs)

IsMatch-run :
    (start to : ℕ) (bs : Bytes)
    → to ≡ start + length bs
    → IsBytes bs
    → leb shortest_serial (run_at bs) ≡ true
    → IsMatch start to start (take (run_at bs) bs)
IsMatch-run start to bs e h found =
    let within : run_at bs ≤ length bs = run_length-within longest_serial bs in
    let size : length (take (run_at bs) bs) ≡ run_at bs =
      omega (arith, length-take (run_at bs) bs) in
    record {
      low = omega arith;
      high = omega arith;
      long = omega (arith, leb→le shortest_serial (run_at bs) found);
      short = omega (arith, run_length-le longest_serial bs);
      bytes = IsBytes-take (run_at bs) bs h;
    }

pub finditer-Matches :
    (start to skip : ℕ) (bs : Bytes)
    → to ≡ start + length bs
    → IsBytes bs
    → Matches start to (finditer start skip bs)
unfolding finditer
finditer-Matches start to skip [] e h = tt
finditer-Matches start to (suc skip) (b ∷ bs) e h =
    Matches-later start to (finditer (suc start) skip bs)
      (finditer-Matches (suc start) to skip bs (omega arith) h.1)
finditer-Matches start to zero (b ∷ bs) e h =
    elim (Bool-cases (leb shortest_serial (run_at (b ∷ bs)))) [
      | inl found ↦ rw (found) (
        IsMatch-run start to (b ∷ bs) e h found,
        Matches-later start to (finditer (suc start) (run_at (b ∷ bs) - 1) bs)
            (finditer-Matches (suc start) to (run_at (b ∷ bs) - 1) bs (omega arith) h.1),
      )
      | inr missed ↦ rw (missed) (
          Matches-later start to (finditer (suc start) 0 bs)
            (finditer-Matches (suc start) to 0 bs (omega arith) h.1))
    ]

-- What has been replaced keeps its length, and consists of bytes.
pub record IsStable (p : Pseudonymiser) : Type 0 where
  pub at :
      (serial replacement : Bytes)
      → lookup_name serial p.seen ≡ some replacement
      → (length replacement ≡ length serial) × IsBytes replacement

alphabet_at-lt : (b : ℕ) → alphabet_at (b % alphabet_length) < 256
alphabet_at-lt b = ground arith

letters-IsBytes : (bs : Bytes) → IsBytes (map (λ b. alphabet_at (b % alphabet_length)) bs)
letters-IsBytes [] = tt
letters-IsBytes (b ∷ bs) = (alphabet_at-lt b, letters-IsBytes bs)

length-letters : (bs : Bytes) → length (map (λ b. alphabet_at (b % alphabet_length)) bs) ≡ length bs
length-letters [] = refl
length-letters (b ∷ bs) = ap suc (length-letters bs)

module _ (digest : Bytes → Bytes → Bytes)
    (digest_size : (key serial : Bytes) → length (digest key serial) ≡ 32) where
  IsReplaced : Bytes → Bytes × Pseudonymiser → Type 0
  IsReplaced serial (replacement, p) =
      (length replacement ≡ length serial) × IsBytes replacement × IsStable p

  replacement_for_ok :
      (key serial : Bytes)
      → length serial ≤ longest_serial
      → (r : Bytes) × (replacement_for digest key serial ≡ ok r)
        × (length r ≡ length serial)
        × IsBytes r
  unfolding replacement_for
  replacement_for_ok key serial h =
      let enough : leb (length serial) (length (digest key serial)) ≡ true =
        le→leb _ _ (omega (arith, digest_size key serial)) in
      (
        map (λ b. alphabet_at (b % alphabet_length)) (take (length serial) (digest key serial)),
        rw (enough) refl,
        length-letters (take (length serial) (digest key serial))
            ∙ omega
                (arith, length-take (length serial) (digest key serial), digest_size key serial),
        letters-IsBytes (take (length serial) (digest key serial)),
      )

  remembered-IsStable :
      (p : Pseudonymiser) (serial r : Bytes)
      → IsStable p
      → length r ≡ length serial
      → IsBytes r
      → IsStable (record p { seen = insert_name serial r p.seen })
  remembered-IsStable p serial r stable size bytes = record {
    at = λ k v h. elim (Bool-cases (str_eq serial k)) [
      | inl e ↦
          let found : some r ≡ some v =
            rw e at (sym (lookup_name-insert_name serial k r p.seen) ∙ h) in
          let same : r ≡ v = cc found in
          let here : serial ≡ k = str_eq→eq serial k e in
          (ap length (sym same) ∙ size ∙ ap length here, subst IsBytes same bytes)
      | inr e ↦ stable.at k v (rw e at (sym (lookup_name-insert_name serial k r p.seen) ∙ h))
    ];
  }

  remember_ok :
      (p : Pseudonymiser) (serial : Bytes) (known : Option Bytes)
      → lookup_name serial p.seen ≡ known
      → IsStable p
      → length serial ≤ longest_serial
      → (out : Bytes × Pseudonymiser) × (remember digest p serial known ≡ ok out)
        × IsReplaced serial out
  unfolding IsReplaced
  remember_ok p serial (some r) e stable h =
      let x = stable.at serial r e in ((r, p), refl, (x.0, x.1, stable))
  remember_ok p serial none e stable h =
      let (r, made, size, bytes) = replacement_for_ok p.key serial h in
      (
        (r, record p { seen = insert_name serial r p.seen }),
        rw (made) refl,
        (size, bytes, remembered-IsStable p serial r stable size bytes),
      )

  abbrev pub IsRedactedFrom : ℕ → ℕ → Bytes → Bytes × Pseudonymiser → Type 0
  IsRedactedFrom from to plain (after, p) = Edited from to plain after × IsBytes after × IsStable p

  pub replace_all_ok :
      (from to : ℕ) (matches : List (ℕ × Bytes)) (plain : Bytes) (p : Pseudonymiser)
      → Matches from to matches
      → header_length + to ≤ length plain
      → IsBytes plain
      → IsStable p
      → (out : Bytes × Pseudonymiser) × (replace_all digest matches plain p ≡ ok out)
        × IsRedactedFrom (header_length + from) (header_length + to) plain out
  unfolding replace_all replace IsReplaced
  replace_all_ok from to [] plain p m fits bytes stable =
      ((plain, p), refl, (Edited-refl _ _ plain, bytes, stable))
  replace_all_ok from to ((start, serial) ∷ matches) plain p m fits bytes stable =
      let ((r, p'), made, (size, good, stable')) =
        remember_ok p serial (lookup_name serial p.seen) refl stable m.0.short in
      let at = header_length + start in
      let high : at + length serial ≤ header_length + to = omega (arith, m.0.high) in
      let once =
        splice-Edited (header_length + from) (header_length + to) plain at (length serial) r size
          (omega (arith, m.0.low)) high (omega arith) in
      let bytes' =
        splice-IsBytes (header_length + from) (header_length + to) plain at (length serial) r size
          (omega (arith, m.0.low)) high (omega arith) bytes good in
      let (out, rest, (edited, bytes'', stable'')) =
        replace_all_ok from to matches (splice plain at (length serial) r) p' m.1
          (omega (arith, once.same_length)) bytes' stable' in
      (out, rw (made) rest, (Edited-trans _ _ plain _ out.0 once edited, bytes'', stable''))
