-- ===== src/Session/Matching.antt =====
-- Which reply resolves which command.
use growatt_datalogger.Base.{
  Bool-cases, Option, ap, arith, false, if◌then◌else◌, inl, inr, none, refl, some, true, ℕ, ◌&&◌,
  ◌==◌, ◌∙◌, ◌≡◌, ◌⊎◌,
}
use growatt_datalogger.Commands.Reply.{CommandResponse}
use growatt_datalogger.Python.{Datetime}
use growatt_datalogger.Session.Correlate.{
  answers_register, correlates, is_awaited, match_response, note_unsolicited, resolve,
  same_register,
}
use growatt_datalogger.Session.State.{Outstanding, Session, pending, resolved}

pub record Answering (o : Outstanding) (code number : ℕ) (r : CommandResponse) : Type 0 where
  pub same_function : o.function ≡ code
  pub register_or_sequence :
      (r.register ≡ some o.register) ⊎ ((r.register ≡ none) × (o.sequence ≡ number))

answers_register-some :
    (r : Option ℕ) (register : ℕ) → answers_register r register ≡ true → r ≡ some register
answers_register-some none register h = cc
answers_register-some (some r) register h = ground arith

correlates-registers :
    (o : Outstanding) (code number : ℕ) (r : Option ℕ)
    → (if o.sequence == number && same_register r o.register
        then true
        else if o.sequence == number
        then false
        else answers_register r o.register)
      ≡ true
    → (r ≡ some o.register) ⊎ ((r ≡ none) × (o.sequence ≡ number))
correlates-registers o code number none h = inr (refl, ground arith)
correlates-registers o code number (some r) h = inl (ground arith)

same_register-own : (register : ℕ) → (register == register) ≡ true
same_register-own register = ground arith

correlates-Answering :
    (o : Outstanding) (code number : ℕ) (r : CommandResponse)
    → correlates o code number r ≡ true
    → Answering o code number r
unfolding correlates
correlates-Answering o code number r h = record {
  same_function = ground arith;
  register_or_sequence = correlates-registers o code number r.register (ground arith);
}

Answering-correlates :
    (o : Outstanding) (code number : ℕ) (r : CommandResponse)
    → Answering o code number r
    → correlates o code number r ≡ true
unfolding correlates
Answering-correlates o code number r h = elim h.register_or_sequence [
  | inl e ↦ rw (e) (ground (arith, h.same_function, same_register-own o.register))
  | inr (e, n) ↦ rw (e) (ground (arith, h.same_function, n))
]

match_response-awaited :
    (now : Datetime) (code number : ℕ) (r : CommandResponse) (s : Session)
    → is_awaited s.outstanding code number r ≡ true
    → match_response now code number r s ≡ record s { future = resolve s.future r }
unfolding match_response
match_response-awaited now code number r s h = rw (h)

match_response-unawaited :
    (now : Datetime) (code number : ℕ) (r : CommandResponse) (s : Session)
    → is_awaited s.outstanding code number r ≡ false
    → match_response now code number r s ≡ note_unsolicited now r s
unfolding match_response
match_response-unawaited now code number r s h = rw (h)

is_awaited-some :
    (o : Outstanding) (code number : ℕ) (r : CommandResponse)
    → is_awaited (some o) code number r ≡ correlates o code number r
unfolding is_awaited
is_awaited-some o code number r = refl

-- While a command is outstanding and unresolved, a parsed reply resolves it exactly when it has
-- the function code that the command waits for and either names the command's register or names
-- none and has its sequence number. It then changes nothing else. Every other reply, one on the
-- command's own sequence number for another register included, leaves the command waiting and is
-- noted as unsolicited.
pub match_response-decides :
    (now : Datetime) (code number : ℕ) (r : CommandResponse) (s : Session) (o : Outstanding)
    → s.outstanding ≡ some o
    → s.future ≡ pending
    → (Answering o code number r
        × (match_response now code number r s ≡ record s { future = resolved r }))
      ⊎ (¬ Answering o code number r
          × (match_response now code number r s ≡ note_unsolicited now r s))
match_response-decides now code number r s o ho hf =
    elim (Bool-cases (correlates o code number r)) [
      | inl h ↦ inl (
        correlates-Answering o code number r h,
        match_response-awaited now code number r s
              (ap (λ x. is_awaited x code number r) ho ∙ is_awaited-some o code number r ∙ h)
            ∙ ap (λ f. record s { future = resolve f r }) hf,
      )
      | inr h ↦ inr (
        (λ a.
            let t : correlates o code number r ≡ true = Answering-correlates o code number r a in
            cc),
        match_response-unawaited now code number r s
            (ap (λ x. is_awaited x code number r) ho ∙ is_awaited-some o code number r ∙ h),
      )
    ]
