-- ===== src/Session/Replies.antt =====
-- Actions that send their replies first, one rule for each way to build an action of `handle_frame`.
use growatt_datalogger.Base.{
  Bool, Bool-cases, List, [], ap, append-nil, append_assoc, ap₂, arith, false, if◌then◌else◌, inl,
  inr, refl, sym, true, ◌++◌, ◌∙◌, ◌∷◌, ◌≡◌,
}
use growatt_datalogger.Python.{Bytes, Result, err, ok}
use growatt_datalogger.Records.Frame.{Frame, build_ack}
use growatt_datalogger.Session.Handle.{acknowledge, reply}
use growatt_datalogger.Session.Quiet.{After, Quiet, sends, sends-append}
use growatt_datalogger.Session.State.{
  Action, Env, Event, Session, Stats, World, branch, continue, done, modify, modify_stats, send,
  sent, ◌>>◌,
}

abbrev events_of : List Bytes → List Event
events_of [] = []
events_of (b ∷ bs) = sent b ∷ events_of bs

-- The replies come first behind what was done before, and nothing sent follows them.
pub record Answers (before : List Event) (replies : List Bytes) (after : List Event) : Type 0 where
  pub more : List Event
  pub appended : after ≡ before ++ (events_of replies ++ more)
  pub silent : sends more ≡ []

Answers-After :
    {a b c : List Event} (replies : List Bytes)
    → Answers a replies b
    → After b c
    → Answers a replies c
Answers-After {a} replies p q = record {
  more = p.more ++ q.more;
  appended =
      q.appended
      ∙ ap (λ (t : List Event). t ++ q.more) p.appended
      ∙ append_assoc a (events_of replies ++ p.more) q.more
      ∙ ap (λ (t : List Event). a ++ t) (append_assoc (events_of replies) p.more q.more);
  silent = sends-append p.more q.more ∙ ap₂ (λ (x y : List Bytes). x ++ y) p.silent q.silent;
}

abbrev pub unless_suppressed : Session → List Bytes → List Bytes
unless_suppressed s replies = if s.suppress_replies then [] else replies

-- An action that sends these replies first, and nothing else; none if replies are suppressed.
pub record Replying (replies : List Bytes) (m : Action (Unit {0})) : Type 0 where
  pub at : (w : World) → Answers w.events (unless_suppressed w.session replies) (m w).1.events

pub Replying-branch :
    (b : Bool) (e f : List Bytes) (m n : Action (Unit {0}))
    → Replying e m
    → Replying f n
    → Replying (if b then e else f) (branch b m n)
Replying-branch true e f m n p q = p
Replying-branch false e f m n p q = q

unless_suppressed_none : (s : Session) → unless_suppressed s [] ≡ []
unless_suppressed_none s = ground arith

pub Replying-Quiet : (m : Action (Unit {0})) → Quiet m → Replying [] m
Replying-Quiet m q = record {
  at = λ w.
      rw (unless_suppressed_none w.session)
        (record { more = (q.at w).more; appended = (q.at w).appended; silent = (q.at w).silent });
}

pub Replying-modify_stats :
    (f : Stats → Stats) (e : List Bytes) (m : Action (Unit {0}))
    → Replying e m
    → Replying e (modify_stats f >> m)
Replying-modify_stats f e m p = record {
  at = λ w. p.at (record w { session = record w.session { stats = f w.session.stats } });
}

Replying-continue :
    (before : List Event) (e : List Bytes) (out : Result (Unit {0}) × World) (n : Action (Unit {0}))
    → Answers before e out.1.events
    → Quiet n
    → Answers before e (continue out (λ u. n)).1.events
Replying-continue before e (ok a, w) n p q = Answers-After e p (q.at w)
Replying-continue before e (err x, w) n p q = p

pub Replying-then :
    (e : List Bytes) (m n : Action (Unit {0})) → Replying e m → Quiet n → Replying e (m >> n)
Replying-then e m n p q = record {
  at = λ w. Replying-continue w.events (unless_suppressed w.session e) (m w) n (p.at w) q;
}

pub Replying-key_exchange :
    (b : Bool) (e : List Bytes) (m : Action (Unit {0}))
    → Replying e m
    → Replying e (branch b (modify (λ s. record s { key_exchange = true })) done >> m)
Replying-key_exchange true e m p = record {
  at = λ w. p.at (record w { session = record w.session { key_exchange = true } });
}
Replying-key_exchange false e m p = record { at = λ w. p.at w }

pub Replying-reply :
    (env : Env) (content : Bytes)
    → env.deliver content ≡ true
    → Replying (content ∷ []) (reply env content)
unfolding reply send
Replying-reply env content h = record {
  at = λ w. elim (Bool-cases w.session.suppress_replies) [
    | inl q ↦ rw (q) (record { more = []; appended = sym (append-nil w.events); silent = refl })
    | inr q ↦ rw (q, h) (record { more = []; appended = refl; silent = refl })
  ];
}

pub Replying-acknowledge :
    (env : Env) (frame : Frame) (ack : Bytes)
    → build_ack frame ≡ ok ack
    → env.deliver ack ≡ true
    → Replying (ack ∷ []) (acknowledge env frame)
unfolding acknowledge
Replying-acknowledge env frame ack h d = rw (h) (Replying-reply env ack d)
