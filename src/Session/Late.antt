-- ===== src/Session/Late.antt =====
-- The replies that nothing waited for: the log of them, and what it says of a write from elsewhere.
use growatt_datalogger.Base.{
  All, All-append, All-map, Bool-cases, List, [], ap, append_assoc, arith, drop, drop-append_within,
  inl, inr, length, length-append, length-drop, suc, zero, ℕ, ◌++◌, ◌+◌, ◌-◌, ◌<◌, ◌∙◌, ◌∷◌, ◌≡◌,
  ◌≤◌,
}
use growatt_datalogger.Commands.Reply.{CommandResponse}
use growatt_datalogger.Python.{Datetime}
use growatt_datalogger.Session.Correlate.{
  deque_append, is_awaited, match_response, max_unsolicited, note_unsolicited,
}
use growatt_datalogger.Session.State.{Session, Unsolicited}

abbrev pub Upto : ℕ → List Unsolicited → Type 0
Upto high entries = All (λ (e : Unsolicited). e.ordinal ≤ high) entries

-- The log of unsolicited replies, as it is at all times.
pub record IsLog (s : Session) : Type 0 where
  pub bounded : length s.unsolicited ≤ max_unsolicited
  pub counted : Upto s.unsolicited_seen s.unsolicited

Upto-drop :
    (n high : ℕ) (entries : List Unsolicited) → Upto high entries → Upto high (drop n entries)
Upto-drop zero high entries h = h
Upto-drop (suc n) high [] h = tt
Upto-drop (suc n) high (e ∷ entries) h = Upto-drop n high entries h.1

Upto-suc : (high : ℕ) (entries : List Unsolicited) → Upto high entries → Upto (high + 1) entries
Upto-suc high entries h =
    All-map (λ (e : Unsolicited). e.ordinal ≤ high) (λ (e : Unsolicited). e.ordinal ≤ high + 1)
      entries (λ e k. omega arith) h

length-deque_append :
    (entries : List Unsolicited) (e : Unsolicited)
    → length (deque_append entries e) ≤ max_unsolicited
unfolding deque_append
length-deque_append entries e =
    omega (arith, length-drop (length (entries ++ e ∷ []) - 32) (entries ++ e ∷ []))

pub note_unsolicited-IsLog :
    (now : Datetime) (r : CommandResponse) (s : Session)
    → IsLog s
    → IsLog (note_unsolicited now r s)
unfolding note_unsolicited deque_append
note_unsolicited-IsLog now r s h = record {
  bounded = length-deque_append s.unsolicited _;
  counted = Upto-drop _ (s.unsolicited_seen + 1) _ (
      All-append _ s.unsolicited _ (Upto-suc s.unsolicited_seen s.unsolicited h.counted)
        (omega arith, tt));
}

-- If the log of unsolicited replies holds at most 32 entries, none with an ordinal above the
-- count of those seen, then it still does after any reply, matched or not.
pub match_response-IsLog :
    (now : Datetime) (code number : ℕ) (r : CommandResponse) (s : Session)
    → IsLog s
    → IsLog (match_response now code number r s)
unfolding match_response
match_response-IsLog now code number r s h =
    elim (Bool-cases (is_awaited s.outstanding code number r)) [
      | inl e ↦ rw (e) (record { bounded = h.bounded; counted = h.counted })
      | inr e ↦ rw (e) (note_unsolicited-IsLog now r s h)
    ]

-- Replies noted one after the other, and the entries that they are noted as.
abbrev pub note_all : List (Datetime × CommandResponse) → Session → Session
note_all [] s = s
note_all (r ∷ rs) s = note_all rs (note_unsolicited r.0 r.1 s)

abbrev pub entries_from : ℕ → List (Datetime × CommandResponse) → List Unsolicited
entries_from seen [] = []
entries_from seen (r ∷ rs) =
    record { ordinal = seen + 1; at = r.0; response = r.1 } ∷ entries_from (seen + 1) rs

-- What is in the log after them: some of the old entries, and all the new ones.
pub record Kept (since : ℕ) (news : List Unsolicited) (after : List Unsolicited) : Type 0 where
  pub olds : List Unsolicited
  pub split : after ≡ olds ++ news
  pub old : Upto since olds

pub note_unsolicited-Kept :
    (now : Datetime) (r : CommandResponse) (s : Session) (since : ℕ) (news : List Unsolicited)
    → length news < max_unsolicited
    → length s.unsolicited ≤ max_unsolicited
    → Kept since news s.unsolicited
    → Kept since
        (news ++ record { ordinal = s.unsolicited_seen + 1; at = now; response = r } ∷ [])
        (note_unsolicited now r s).unsolicited
unfolding note_unsolicited deque_append
note_unsolicited-Kept now r s since news room small k =
    let e : Unsolicited = record { ordinal = s.unsolicited_seen + 1; at = now; response = r } in
    let n : ℕ = length (s.unsolicited ++ e ∷ []) - 32 in
    let whole : s.unsolicited ++ e ∷ [] ≡ k.olds ++ (news ++ e ∷ []) =
      ap (λ (t : List Unsolicited). t ++ e ∷ []) k.split ∙ append_assoc k.olds news (e ∷ []) in
    record {
      olds = drop n k.olds;
      split =
          ap (drop n) whole
          ∙ drop-append_within k.olds (news ++ e ∷ []) n (
              omega (
                arith,
                ap length k.split,
                length-append k.olds news,
                length-append s.unsolicited (e ∷ []),
              ));
      old = Upto-drop n since k.olds k.old;
    }
