-- ===== src/Settings/Device.antt =====
-- A device that has some registers, and what a read of a run of them brings.
use growatt_datalogger.Base.{
  ==_iff, Bool, Bool-cases, List, Option, [], ap, arith, contains, false, filterb, if◌then◌else◌,
  inl, inr, leb, length, ltb, none, refl, some, suc, sym, true, zero, ℕ, ◌&&◌, ◌+◌, ◌==◌, ◌||◌, ◌∙◌,
  ◌∷◌, ◌≡◌,
}
use growatt_datalogger.Base.Dict.{insert, lookup, lookup-insert}
use growatt_datalogger.Records.Parse.{words}
use growatt_datalogger.Settings.Channel.{number_words, update_wanted}

abbrev pub both : Option ℕ → Option (List ℕ) → Option (List ℕ)
both none words = none
both (some word) none = none
both (some word) (some words) = some (word ∷ words)

-- `n` registers of a device from `first` on, if it has them all.
abbrev pub words_from : (ℕ → Option ℕ) → ℕ → ℕ → Option (List ℕ)
words_from device first zero = some []
words_from device first (suc n) = both (device first) (words_from device (first + 1) n)

-- What it answers a read of them with: nothing, if it lacks one of them.
abbrev pub values_of : Option (List ℕ) → List ℕ
values_of none = []
values_of (some words) = words

abbrev pub or_else : Option ℕ → Option ℕ → Option ℕ
or_else none later = later
or_else (some word) later = some word

abbrev pub within : ℕ → ℕ → ℕ → Bool
within start end r = leb start r && leb r end

both-some :
    (word : Option ℕ) (words : Option (List ℕ)) (all : List ℕ)
    → both word words ≡ some all
    → (w : ℕ) × (ws : List ℕ) × (word ≡ some w) × (words ≡ some ws) × (all ≡ w ∷ ws)
both-some none words all h = absurd (cc h)
both-some (some w) none all h = absurd (cc h)
both-some (some w) (some ws) all h = (w, ws, refl, refl, cc h)

pub length-words_from :
    (device : ℕ → Option ℕ) (first n : ℕ) (words : List ℕ)
    → words_from device first n ≡ some words
    → length words ≡ n
length-words_from device first zero words h = let e : [] ≡ words = cc h in ap length (sym e)
length-words_from device first (suc n) words h =
    let (w, ws, e, f, g) = both-some (device first) (words_from device (first + 1) n) words h in
    ap length g ∙ ap suc (length-words_from device (first + 1) n ws f)

-- The register's word is the device's, if it is in the part that was read and the device has it.
abbrev pub merged : (ℕ → Option ℕ) → Bool → ℕ → List (ℕ × ℕ) → Option ℕ
merged device inside r values =
    if inside then or_else (device r) (lookup r values) else lookup r values

module _ (device : ℕ → Option ℕ) (wanted : List ℕ) where
  abbrev pub keep_wanted : ℕ → ℕ → List (ℕ × ℕ) → List (ℕ × ℕ)
  keep_wanted first w values = if contains wanted first then insert first w values else values

  lookup-keep_wanted :
      (first w r : ℕ) (values : List (ℕ × ℕ))
      → lookup r (keep_wanted first w values)
        ≡ (if contains wanted first && first == r then some w else lookup r values)
  lookup-keep_wanted first w r values = elim (Bool-cases (contains wanted first)) [
    | inl e ↦ rw (e, lookup-insert first r w values) refl
    | inr e ↦ rw (e) refl
  ]

  step :
      (first n w r : ℕ) (values : List (ℕ × ℕ))
      → device first ≡ some w
      → lookup r (keep_wanted first w values)
        ≡ (if contains wanted first && first == r then some w else lookup r values)
      → merged device
          (contains wanted r && (leb (first + 1) r && ltb r (first + 1 + n)))
          r
          (keep_wanted first w values)
        ≡ merged device (contains wanted r && (leb first r && ltb r (first + suc n))) r values
  step first n w r values e one = elim (Bool-cases (first == r)) [
    | inl same ↦
        let here : first ≡ r = (==_iff first r).0 same in
        let past : (contains wanted r && (leb (first + 1) r && ltb r (first + 1 + n))) ≡ false =
          ground arith in
        let inside : (leb first r && ltb r (first + suc n)) ≡ true = ground arith in
        let word : device r ≡ some w = ap device (sym here) ∙ e in
        let asked : contains wanted first ≡ contains wanted r = ap (contains wanted) here in
        rw (past, inside, word) (one ∙ rw (same, asked) (ground arith))
    | inr other ↦
        let unread : lookup r (keep_wanted first w values) ≡ lookup r values =
          one ∙ rw (other) (ground arith) in
        let shifted : (leb (first + 1) r && ltb r (first + 1 + n))
            ≡ (leb first r && ltb r (first + suc n)) =
          ground arith in
        rw (shifted, unread) refl
  ]

  -- The words that are wanted, of a run that the device has.
  pub lookup-update_wanted :
      (first n : ℕ) (words : List ℕ) (values : List (ℕ × ℕ)) (r : ℕ)
      → words_from device first n ≡ some words
      → lookup r (update_wanted wanted values (number_words first words))
        ≡ merged device (contains wanted r && (leb first r && ltb r (first + n))) r values
  unfolding update_wanted number_words
  lookup-update_wanted first zero words values r h =
      let none_read : [] ≡ words = cc h in
      let outside : (contains wanted r && (leb first r && ltb r (first + 0))) ≡ false =
        ground arith in
      rw (← none_read, outside) refl
  lookup-update_wanted first (suc n) words values r h =
      let (w, ws, e, f, g) = both-some (device first) (words_from device (first + 1) n) words h in
      let rest = lookup-update_wanted (first + 1) n ws (keep_wanted first w values) r f in
      let one = lookup-keep_wanted first w r values in rw (g) (rest ∙ step first n w r values e one)

pub or_else_twice : (word later : Option ℕ) → or_else word (or_else word later) ≡ or_else word later
or_else_twice none later = refl
or_else_twice (some w) later = refl

or_false : (b : Bool) → b ≡ (b || false)
or_false true = refl
or_false false = refl

pub both-none : (word : Option ℕ) → both word (some []) ≡ none → word ≡ none
both-none none h = refl
both-none (some w) h = cc h

and_false : (b : Bool) → (b && false) ≡ false
and_false true = refl
and_false false = refl

pub contains-filterb :
    (p : ℕ → Bool) (rs : List ℕ) (r : ℕ) → contains (filterb p rs) r ≡ (contains rs r && p r)
contains-filterb p [] r = refl
contains-filterb p (s ∷ rs) r = elim (Bool-cases (s == r)) [
  | inl e ↦
      let same : p s ≡ p r = ap p ((==_iff s r).0 e) in
      elim (Bool-cases (p s)) [
        | inl f ↦ rw (f, filterb, e, sym same ∙ f) refl
        | inr f ↦
            rw (f, filterb, e, contains-filterb p rs r, sym same ∙ f) (and_false (contains rs r))
      ]
  | inr e ↦ elim (Bool-cases (p s)) [
    | inl f ↦ rw (f, filterb, e) (contains-filterb p rs r)
    | inr f ↦ rw (f, filterb, e) (contains-filterb p rs r)
  ]
]

-- Two parts one after the other: `later` holds what the first has left.
pub merged_twice :
    (device : ℕ → Option ℕ) (second first : Bool) (r : ℕ) (later values : List (ℕ × ℕ))
    → lookup r later ≡ merged device first r values
    → merged device second r later ≡ merged device (first || second) r values
merged_twice device true true r later values h = rw (h) (or_else_twice (device r) (lookup r values))
merged_twice device true false r later values h = rw (h) refl
merged_twice device false first r later values h =
    h ∙ ap (λ (b : Bool). merged device b r values) (or_false first)
