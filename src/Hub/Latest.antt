-- ===== src/Hub/Latest.antt =====
-- Which connection `session_for` chooses.
use growatt_datalogger.Base.{
  filterb-in, filterb-out, subst, sym, ap, ◌∙◌, All, Bool, Bool-cases, List, Option, [], false,
  filterb, if◌then◌else◌, inl, inr, none, refl, some, true, ◌∷◌, ◌≡◌, ◌⊎◌,
}
use growatt_datalogger.Hub.Choose.{is_candidate, latest, latest_of, seen_later, session_for}
use growatt_datalogger.Python.{Datetime, Str}
use growatt_datalogger.Session.State.{Session}

-- What an order of moments is to do: `later a b` is `a > b`.
pub record IsOrder (later : Datetime → Datetime → Bool) : Type 0 where
  pub asymmetric : (a b : Datetime) → later a b ≡ true → later b a ≡ false
  pub transitive : (a b c : Datetime) → later a b ≡ false → later b c ≡ false → later a c ≡ false

abbrev pub IsAmong : Session → List Session → Type 0
IsAmong s [] = ⊥
IsAmong s (t ∷ sessions) = (s ≡ t) ⊎ IsAmong s sessions

module _ (later : Datetime → Datetime → Bool) (order : IsOrder later) where
  seen_later-asymmetric :
      (a b : Option Datetime) → seen_later later a b ≡ true → seen_later later b a ≡ false
  unfolding seen_later
  seen_later-asymmetric none b h = cc
  seen_later-asymmetric (some a) none h = refl
  seen_later-asymmetric (some a) (some b) h = order.asymmetric a b h

  seen_later-transitive :
      (a b c : Option Datetime)
      → seen_later later a b ≡ false
      → seen_later later b c ≡ false
      → seen_later later a c ≡ false
  unfolding seen_later
  seen_later-transitive none b c h k = refl
  seen_later-transitive (some a) none c h k = cc
  seen_later-transitive (some a) (some b) none h k = cc
  seen_later-transitive (some a) (some b) (some c) h k = order.transitive a b c h k

  seen_later-same : (a : Option Datetime) → seen_later later a a ≡ false
  seen_later-same a = elim (Bool-cases (seen_later later a a)) [
    | inl e ↦ seen_later-asymmetric a a e
    | inr e ↦ e
  ]

  -- Nothing was seen later than this session.
  abbrev IsNewer : Session → Session → Type 0
  IsNewer m t = seen_later later t.last_seen m.last_seen ≡ false

  abbrev pub IsChoice : Session → List Session → Session → Type 0
  IsChoice best sessions m =
      ((m ≡ best) ⊎ IsAmong m sessions) × IsNewer m best × All (IsNewer m) sessions

  after_first :
      (best s : Session) (sessions : List Session)
      → ((first : Session) → IsChoice first sessions (latest later first sessions))
      → (b : Bool) → seen_later later s.last_seen best.last_seen ≡ b
      → IsChoice best (s ∷ sessions) (latest later (if b then s else best) sessions)
  after_first best s sessions rest true e =
      let (among, newer, all) = rest s in
      (
        inr among,
        seen_later-transitive best.last_seen s.last_seen (latest later s sessions).last_seen
            (seen_later-asymmetric s.last_seen best.last_seen e) newer,
        (newer, all),
      )
  after_first best s sessions rest false e =
      let (among, newer, all) = rest best in
      (
        elim among [ inl f ↦ inl f | inr f ↦ inr (inr f) ],
        newer,
        (
          seen_later-transitive s.last_seen best.last_seen (latest later best sessions).last_seen e
              newer,
          all,
        ),
      )

  latest-IsChoice :
      (best : Session) (sessions : List Session)
      → IsChoice best sessions (latest later best sessions)
  unfolding latest
  latest-IsChoice best [] = (inl refl, seen_later-same best.last_seen, tt)
  latest-IsChoice best (s ∷ sessions) =
      after_first best s sessions (λ first. latest-IsChoice first sessions) _ refl

-- The open connections of the datalogger, if there are any, of which the chosen one is the latest.
abbrev pub IsLatest : (Datetime → Datetime → Bool) → List Session → Str → Option Session → Type 0
IsLatest later sessions serial none = All (λ t. is_candidate serial t ≡ false) sessions
IsLatest later sessions serial (some m) =
    IsAmong m sessions
    × (is_candidate serial m ≡ true)
    × All (λ t. is_candidate serial t ≡ true → seen_later later t.last_seen m.last_seen ≡ false)
        sessions

IsAmong-filterb :
    (p : Session → Bool) (sessions : List Session) (m : Session)
    → IsAmong m (filterb p sessions)
    → IsAmong m sessions × (p m ≡ true)
IsAmong-filterb p [] m h = absurd h
IsAmong-filterb p (s ∷ sessions) m h = elim (Bool-cases (p s)) [
  | inl e ↦ elim (subst (IsAmong m) (filterb-in p s sessions e) h) [
    | inl f ↦ (inl f, ap p f ∙ e)
    | inr g ↦ let (among, kept) = IsAmong-filterb p sessions m g in (inr among, kept)
  ]
  | inr e ↦
      let (among, kept) =
        IsAmong-filterb p sessions m (subst (IsAmong m) (filterb-out p s sessions e) h) in
      (inr among, kept)
]

All-filterb :
    (P : Session → Type 0) (p : Session → Bool) (sessions : List Session)
    → All P (filterb p sessions)
    → All (λ s. p s ≡ true → P s) sessions
All-filterb P p [] h = tt
All-filterb P p (s ∷ sessions) h = elim (Bool-cases (p s)) [
  | inl e ↦
      let held = subst (All P) (filterb-in p s sessions e) h in
      (λ kept. held.0, All-filterb P p sessions held.1)
  | inr e ↦
      (λ kept. absurd (cc), All-filterb P p sessions (subst (All P) (filterb-out p s sessions e) h))
]

none_left :
    (p : Session → Bool) (sessions : List Session)
    → filterb p sessions ≡ []
    → All (λ s. p s ≡ false) sessions
none_left p [] h = tt
none_left p (s ∷ sessions) h = elim (Bool-cases (p s)) [
  | inl e ↦ let kept = sym (filterb-in p s sessions e) ∙ h in absurd (cc)
  | inr e ↦ (e, none_left p sessions (sym (filterb-out p s sessions e) ∙ h))
]

chosen-IsLatest :
    (later : Datetime → Datetime → Bool) (sessions : List Session) (serial : Str)
    → IsOrder later
    → (candidates : List Session) → filterb (is_candidate serial) sessions ≡ candidates
    → IsLatest later sessions serial (latest_of later candidates)
chosen-IsLatest later sessions serial order [] e = none_left (is_candidate serial) sessions e
chosen-IsLatest later sessions serial order (s ∷ candidates) e =
    let (among, newer, all) = latest-IsChoice later order s candidates in
    let m = latest later s candidates in
    let (held, open_) =
      IsAmong-filterb (is_candidate serial) sessions m (subst (IsAmong m) (sym e) among) in
    let newest : All (IsNewer later order m) (filterb (is_candidate serial) sessions) =
      subst (All (IsNewer later order m)) (sym e) (newer, all) in
    (held, open_, All-filterb (IsNewer later order m) (is_candidate serial) sessions newest)

-- Where later-than on moments is a strict order under which being not later carries over: the
-- connection chosen for a datalogger is one of the server's, open, and of that datalogger, and no
-- other open connection of it was seen later, one that was never seen counting as the earliest.
-- There is none to choose only if the datalogger has no open connection.
pub session_for-IsLatest :
    (later : Datetime → Datetime → Bool) (sessions : List Session) (serial : Str)
    → IsOrder later
    → IsLatest later sessions serial (session_for later sessions serial)
unfolding session_for
session_for-IsLatest later sessions serial order =
    chosen-IsLatest later sessions serial order _ refl
