-- ===== src/Session/Elsewhere.antt =====
-- `written_elsewhere`, asked with the count of replies seen when a write began.
use growatt_datalogger.Base.{
  Bool, Bool-cases, List, [], ap, append-nil, append_assoc, arith, false, filterb, filterb-in,
  filterb-out, ge→ltb, inl, inr, length, length-append, ltb, lt→ltb, refl, sym, ℕ, ◌&&◌, ◌++◌, ◌+◌,
  ◌<◌, ◌∙◌, ◌∷◌, ◌≡◌, ◌≤◌,
}
use growatt_datalogger.Commands.Reply.{CommandResponse}
use growatt_datalogger.Python.{Datetime}
use growatt_datalogger.Session.Correlate.{
  covers, is_write, max_unsolicited, note_unsolicited, written_elsewhere,
}
use growatt_datalogger.Session.Late.{
  IsLog, Kept, Upto, entries_from, note_all, note_unsolicited-IsLog, note_unsolicited-Kept,
}
use growatt_datalogger.Session.State.{Session, Unsolicited}

note_all-Kept :
    (rs : List (Datetime × CommandResponse)) (s : Session) (since : ℕ) (news : List Unsolicited)
    → length news + length rs ≤ max_unsolicited
    → IsLog s
    → Kept since news s.unsolicited
    → Kept since (news ++ entries_from s.unsolicited_seen rs) (note_all rs s).unsolicited
unfolding note_unsolicited
note_all-Kept [] s since news room log k =
    rw (append-nil news) (record { olds = k.olds; split = k.split; old = k.old })
note_all-Kept (r ∷ rs) s since news room log k =
    let e : Unsolicited = record { ordinal = s.unsolicited_seen + 1; at = r.0; response = r.1 } in
    let later : Kept since ((news ++ e ∷ []) ++ entries_from (s.unsolicited_seen + 1) rs)
        (note_all rs (note_unsolicited r.0 r.1 s)).unsolicited =
      note_all-Kept rs (note_unsolicited r.0 r.1 s) since (news ++ e ∷ [])
        (omega (arith, length-append news (e ∷ []))) (note_unsolicited-IsLog r.0 r.1 s log)
        (note_unsolicited-Kept r.0 r.1 s since news (omega arith) log.bounded k) in
    record {
      olds = later.olds;
      split =
          later.split
          ∙ ap (λ (t : List Unsolicited). later.olds ++ t)
              (append_assoc news (e ∷ []) (entries_from (s.unsolicited_seen + 1) rs));
      old = later.old;
    }

filterb-append :
    (p : Unsolicited → Bool) (xs ys : List Unsolicited)
    → filterb p (xs ++ ys) ≡ filterb p xs ++ filterb p ys
filterb-append p [] ys = refl
filterb-append p (x ∷ xs) ys = elim (Bool-cases (p x)) [
  | inl h ↦
      filterb-in p x (xs ++ ys) h
      ∙ ap (◌∷◌ x) (filterb-append p xs ys)
      ∙ ap (λ (t : List Unsolicited). t ++ filterb p ys) (sym (filterb-in p x xs h))
  | inr h ↦
      filterb-out p x (xs ++ ys) h
      ∙ filterb-append p xs ys
      ∙ ap (λ (t : List Unsolicited). t ++ filterb p ys) (sym (filterb-out p x xs h))
]

-- Two tests that agree on the entry and on the rest.
filterb-same :
    (p q : Unsolicited → Bool) (x : Unsolicited) (xs : List Unsolicited)
    → p x ≡ q x
    → filterb p xs ≡ filterb q xs
    → filterb p (x ∷ xs) ≡ filterb q (x ∷ xs)
filterb-same p q x xs h k = elim (Bool-cases (q x)) [
  | inl e ↦ filterb-in p x xs (h ∙ e) ∙ ap (◌∷◌ x) k ∙ sym (filterb-in q x xs e)
  | inr e ↦ filterb-out p x xs (h ∙ e) ∙ k ∙ sym (filterb-out q x xs e)
]

abbrev pub writes_to : ℕ → Unsolicited → Bool
writes_to register entry = is_write entry && covers entry register

abbrev since_writes_to : ℕ → ℕ → Unsolicited → Bool
since_writes_to since register entry =
    ltb since entry.ordinal && is_write entry && covers entry register

since_writes_to-old :
    (since register : ℕ) (e : Unsolicited)
    → e.ordinal ≤ since
    → since_writes_to since register e ≡ false
since_writes_to-old since register e h =
    ap (λ (b : Bool). b && is_write e && covers e register) (ge→ltb since e.ordinal h)

since_writes_to-new :
    (since register : ℕ) (e : Unsolicited)
    → since < e.ordinal
    → since_writes_to since register e ≡ writes_to register e
since_writes_to-new since register e h =
    ap (λ (b : Bool). b && is_write e && covers e register) (lt→ltb since e.ordinal h)

-- No entry up to the count asked with is found.
filterb-Upto :
    (since register : ℕ) (entries : List Unsolicited)
    → Upto since entries
    → filterb (since_writes_to since register) entries ≡ []
filterb-Upto since register [] h = refl
filterb-Upto since register (e ∷ entries) h =
    filterb-out (since_writes_to since register) e entries
      (since_writes_to-old since register e h.0)
    ∙ filterb-Upto since register entries h.1

filterb-entries_from :
    (since seen register : ℕ) (rs : List (Datetime × CommandResponse))
    → since ≤ seen
    → filterb (since_writes_to since register) (entries_from seen rs)
      ≡ filterb (writes_to register) (entries_from seen rs)
filterb-entries_from since seen register [] h = refl
filterb-entries_from since seen register (r ∷ rs) h =
    filterb-same (since_writes_to since register) (writes_to register) _
      (entries_from (seen + 1) rs) (since_writes_to-new since register _ (omega arith))
      (filterb-entries_from since (seen + 1) register rs (omega arith))

-- For a log of at most 32 entries with no ordinal above the count seen: asked with that count
-- after at most 32 more replies have been noted, `written_elsewhere` gives exactly those of them,
-- in order, that report a write of the register, whatever the log had held before.
pub written_elsewhere-note_all :
    (s : Session) (register : ℕ) (rs : List (Datetime × CommandResponse))
    → IsLog s
    → length rs ≤ max_unsolicited
    → written_elsewhere (note_all rs s) register s.unsolicited_seen
      ≡ filterb (writes_to register) (entries_from s.unsolicited_seen rs)
unfolding written_elsewhere
written_elsewhere-note_all s register rs log room =
    let since : ℕ = s.unsolicited_seen in
    let p : Unsolicited → Bool = since_writes_to since register in
    let k : Kept since (entries_from since rs) (note_all rs s).unsolicited =
      note_all-Kept rs s since [] (omega arith) log (record {
        olds = s.unsolicited;
        split = sym (append-nil s.unsolicited);
        old = log.counted;
      }) in
    ap (filterb p) k.split
    ∙ filterb-append p k.olds (entries_from since rs)
    ∙ ap (λ (t : List Unsolicited). t ++ filterb p (entries_from since rs))
        (filterb-Upto since register k.olds k.old)
    ∙ filterb-entries_from since since register rs (omega arith)
