-- ===== src/Redaction/Edits.antt =====
-- Edits of a payload in place: what they leave as it was.
use growatt_datalogger.Base.{
  All-append, [], ap, arith, drop, length, length-append, length-drop, length-take, refl, suc, sym,
  take, take-append_within, zero, ℕ, ◌++◌, ◌+◌, ◌-◌, ◌<◌, ◌∙◌, ◌∷◌, ◌≡◌, ◌≤◌,
}
use growatt_datalogger.Python.{Bytes, IsBytes}
use growatt_datalogger.Python.Roundtrip.{IsBytes-drop, IsBytes-take}
use growatt_datalogger.Redaction.{splice}

-- A payload of the same length, with the same bytes before `from` and from `to` on.
pub record Edited (from : ℕ) (to : ℕ) (plain : Bytes) (after : Bytes) : Type 0 where
  pub same_length : length after ≡ length plain
  pub before : take from after ≡ take from plain
  pub behind : drop to after ≡ drop to plain

pub Edited-refl : (from to : ℕ) (plain : Bytes) → Edited from to plain plain
Edited-refl from to plain = record { same_length = refl; before = refl; behind = refl }

pub Edited-trans :
    (from to : ℕ) (a b c : Bytes) → Edited from to a b → Edited from to b c → Edited from to a c
Edited-trans from to a b c p q = record {
  same_length = q.same_length ∙ p.same_length;
  before = q.before ∙ p.before;
  behind = q.behind ∙ p.behind;
}

pub take-take : (m n : ℕ) (bs : Bytes) → m ≤ n → take m (take n bs) ≡ take m bs
take-take zero n bs h = refl
take-take (suc m) zero bs h = absurd (omega arith)
take-take (suc m) (suc n) [] h = refl
take-take (suc m) (suc n) (b ∷ bs) h = ap (λ (t : Bytes). b ∷ t) (take-take m n bs (omega arith))

drop_nil : (k : ℕ) → drop {A = ℕ} k [] ≡ []
drop_nil zero = refl
drop_nil (suc k) = refl

pub drop-drop : (m n : ℕ) (bs : Bytes) → drop m (drop n bs) ≡ drop (n + m) bs
drop-drop m zero bs = ap (λ (k : ℕ). drop k bs) (omega arith)
drop-drop m (suc n) [] = drop_nil m ∙ sym (drop_nil (suc n + m))
drop-drop m (suc n) (b ∷ bs) =
    let e : suc (n + m) ≡ suc n + m = omega arith in
    drop-drop m n bs ∙ ap (λ (k : ℕ). drop k (b ∷ bs)) e

drop-append_past :
    (xs ys : Bytes) (n : ℕ) → length xs ≤ n → drop n (xs ++ ys) ≡ drop (n - length xs) ys
drop-append_past [] ys n h = ap (λ (k : ℕ). drop k ys) (omega arith)
drop-append_past (x ∷ xs) ys zero h = absurd (omega arith)
drop-append_past (x ∷ xs) ys (suc n) h =
    drop-append_past xs ys n (omega arith) ∙ ap (λ (k : ℕ). drop k ys) (omega arith)

-- A splice of as many bytes as it replaces, within the bounds.
module _ (from to : ℕ) (plain : Bytes) (start n : ℕ) (replacement : Bytes)
    (size : length replacement ≡ n) (low : from ≤ start) (high : start + n ≤ to)
    (fits : start + n ≤ length plain) where
  length_front : length (take start plain) ≡ start
  length_front = omega (arith, length-take start plain)

  pub splice-Edited : Edited from to plain (splice plain start n replacement)
  unfolding splice
  splice-Edited = record {
    same_length = omega (
      arith,
      length-append (take start plain) (replacement ++ drop (start + n) plain),
      length-append replacement (drop (start + n) plain),
      length-drop (start + n) plain,
      length_front,
    );
    before =
        take-append_within (take start plain) (replacement ++ drop (start + n) plain) from
          (omega (arith, length_front))
        ∙ take-take from start plain low;
    behind =
        drop-append_past (take start plain) (replacement ++ drop (start + n) plain) to
          (omega (arith, length_front))
        ∙ drop-append_past replacement (drop (start + n) plain) (to - length (take start plain))
            (omega (arith, length_front))
        ∙ drop-drop (to - length (take start plain) - length replacement) (start + n) plain
        ∙ ap (λ (k : ℕ). drop k plain) (omega (arith, length_front));
  }

  pub splice-IsBytes :
      IsBytes plain → IsBytes replacement → IsBytes (splice plain start n replacement)
  unfolding splice
  splice-IsBytes h r =
      All-append (λ (b : ℕ). b < 256) (take start plain) (replacement ++ drop (start + n) plain)
        (IsBytes-take start plain h)
        (All-append (λ (b : ℕ). b < 256) replacement (drop (start + n) plain) r
          (IsBytes-drop (start + n) plain h))
