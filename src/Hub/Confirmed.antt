-- ===== src/Hub/Confirmed.antt =====
-- What a successful write of a setting means.
use growatt_datalogger.Base.{
  ==_iff, Bool-cases, Option, ap, inl, inr, none, refl, some, subst, true, ℕ, ◌==◌, ◌≡◌,
}
use growatt_datalogger.Commands.Build.{pos}
use growatt_datalogger.Commands.Reply.{CommandResponse, is_ok}
use growatt_datalogger.Hub.Write.{
  Writing, after_write, judge, readback_attempts, refresh, refresh_over, refreshed, rejected,
  remember, republish, write, write_and_confirm, write_encoded, write_over,
}
use growatt_datalogger.Python.{Datetime, Result, err, home_assistant_error, ok}
use growatt_datalogger.Registers.Writable.{Builtins, Setting, WritableRegister, decode, encode}
use growatt_datalogger.Settings.Channel.{Channel}
use growatt_datalogger.Settings.Explain.{Explanation, explain_rejection}
use growatt_datalogger.Settings.Write.{read_back, write_register}

module _ {S : Type 0} (builtins : Builtins) (entry : WritableRegister)
    (session : S → Option (Channel S)) (now : S → Datetime) where
  -- The datalogger took the write, and a later read of the register gave the very word.
  pub record IsConfirmed (value : Setting) (w : Writing S) (after : Writing S) : Type 0 where
    pub writer : Channel S
    pub reader : Channel S
    pub word : ℕ
    pub response : CommandResponse
    pub between : S
    pub open_before : session w.channel ≡ some writer
    pub encoded : encode builtins entry value ≡ ok word
    pub accepted :
        write_register writer entry.register (pos word) true w.channel ≡ (ok response, between)
    pub result : is_ok response ≡ true
    pub open_after : session between ≡ some reader
    pub read :
        read_back reader builtins.int_of entry.register readback_attempts between
        ≡ (ok (some word), after.channel)
    pub shown : after.current ≡ decode builtins entry word
    pub shown_at : after.current_at ≡ some (now after.channel)
    pub forced : after.forced ≡ w.forced
    pub refreshes : after.refreshes ≡ w.refreshes

  republish-ok :
      (out : Result (Unit {0}) × Writing S) (after : Writing S)
      → republish builtins entry session now out ≡ (ok tt, after)
      → out ≡ (ok tt, after)
  unfolding republish
  republish-ok (ok u, w) after h = h
  republish-ok (err home_assistant_error, w) after h = cc h
  republish-ok (err e, w) after h = cc h

  -- A read-back that confirms the word.
  record Agrees (word : ℕ) (at : Writing S) (after : Writing S) : Type 0 where
    reader : Channel S
    open_after : session at.channel ≡ some reader
    read :
        read_back reader builtins.int_of entry.register readback_attempts at.channel
        ≡ (ok (some word), after.channel)
    shown : after.current ≡ decode builtins entry word
    shown_at : after.current_at ≡ some (now after.channel)
    forced : after.forced ≡ at.forced
    refreshes : after.refreshes ≡ at.refreshes

  shown_after : ℕ → Writing S → S → Writing S
  shown_after word at s =
      remember builtins entry session now (decode builtins entry word) (record at { channel = s })

  Agrees-read :
      (word : ℕ) (at : Writing S) (reader : Channel S) (s : S)
      → session at.channel ≡ some reader
      → read_back reader builtins.int_of entry.register readback_attempts at.channel
        ≡ (ok (some word), s)
      → Agrees word at (shown_after word at s)
  unfolding shown_after
  Agrees-read word at reader s e r = record {
    reader = reader;
    open_after = e;
    read = r;
    shown = refl;
    shown_at = refl;
    forced = refl;
    refreshes = refl;
  }

  judge-read :
      (word : ℕ) (at after : Writing S) (reader : Channel S) (out : Result (Option ℕ) × S)
      → session at.channel ≡ some reader
      → read_back reader builtins.int_of entry.register readback_attempts at.channel ≡ out
      → judge builtins entry session now word (refreshed builtins entry session now at out)
        ≡ (ok tt, after)
      → Agrees word at after
  unfolding judge shown_after
  judge-read word at after reader (ok none, s) e r h = cc h
  judge-read word at after reader (err x, s) e r h = cc h
  judge-read word at after reader (ok (some got), s) e r h = elim (Bool-cases (got == word)) [
    | inl same ↦
        let here : got ≡ word = (==_iff got word).0 same in
        let reached : shown_after got at s ≡ after =
          ap (λ (z : Result (Unit {0}) × Writing S). z.1) h in
        subst (λ z. Agrees word at z) reached
          (subst (λ n. Agrees n at (shown_after got at s)) here (Agrees-read got at reader s e r))
    | inr other ↦ absurd (cc (rw other at h))
  ]

  judge-over :
      (word : ℕ) (at after : Writing S) (reader : Option (Channel S))
      → session at.channel ≡ reader
      → judge builtins entry session now word (refresh_over builtins entry session now at reader)
        ≡ (ok tt, after)
      → Agrees word at after
  unfolding judge
  judge-over word at after none e h = cc h
  judge-over word at after (some reader) e h =
      judge-read word at after reader
        (read_back reader builtins.int_of entry.register readback_attempts at.channel) e refl h

  rejected-raises :
      (w after : Writing S) (out : Result Explanation × S)
      → rejected builtins entry session now w out ≡ (ok tt, after)
      → ⊥
  rejected-raises w after (ok x, s) h = cc h
  rejected-raises w after (err x, s) h = cc h

  after_write-ok :
      (value : Setting) (w after : Writing S) (writer : Channel S) (word : ℕ)
      (out : Result CommandResponse × S)
      → session w.channel ≡ some writer
      → encode builtins entry value ≡ ok word
      → write_register writer entry.register (pos word) true w.channel ≡ out
      → after_write builtins entry session now writer word w out ≡ (ok tt, after)
      → IsConfirmed value w after
  unfolding after_write refresh
  after_write-ok value w after writer word (err e, s) opened coded wrote h = cc h
  after_write-ok value w after writer word (ok response, s) opened coded wrote h =
      elim (Bool-cases (is_ok response)) [
        | inl fine ↦
            let agreed =
              judge-over word (record w { channel = s }) after (session s) refl (rw fine at h) in
            record {
              writer = writer;
              reader = agreed.reader;
              word = word;
              response = response;
              between = s;
              open_before = opened;
              encoded = coded;
              accepted = wrote;
              result = fine;
              open_after = agreed.open_after;
              read = agreed.read;
              shown = agreed.shown;
              shown_at = agreed.shown_at;
              forced = agreed.forced;
              refreshes = agreed.refreshes;
            }
        | inr refused ↦
            absurd (
              rejected-raises w after (explain_rejection writer entry.register s) (rw refused at h))
      ]

  write_encoded-ok :
      (value : Setting) (w after : Writing S) (writer : Channel S) (word : Result ℕ)
      → session w.channel ≡ some writer
      → encode builtins entry value ≡ word
      → write_encoded builtins entry session now writer w word ≡ (ok tt, after)
      → IsConfirmed value w after
  unfolding write_encoded
  write_encoded-ok value w after writer (err e) opened coded h = cc h
  write_encoded-ok value w after writer (ok word) opened coded h =
      after_write-ok value w after writer word
        (write_register writer entry.register (pos word) true w.channel) opened coded refl h

  write_over-ok :
      (value : Setting) (w after : Writing S) (writer : Option (Channel S))
      → session w.channel ≡ writer
      → write_over builtins entry session now writer value w ≡ (ok tt, after)
      → IsConfirmed value w after
  unfolding write_over
  write_over-ok value w after none opened h = cc h
  write_over-ok value w after (some writer) opened h =
      write_encoded-ok value w after writer (encode builtins entry value) opened refl h

  -- When writing a setting succeeds, the datalogger was connected, the value had a word, the
  -- datalogger answered the write of that word with success, and reading the register back
  -- afterwards gave the same word; the entity shows that word's value as of that read, no
  -- unchanged state was forced out and no background refresh asked for.
  pub write-IsConfirmed :
      (value : Setting) (w after : Writing S)
      → write builtins entry session now value w ≡ (ok tt, after)
      → IsConfirmed value w after
  unfolding write write_and_confirm
  write-IsConfirmed value w after h =
      write_over-ok value w after (session w.channel) refl
        (republish-ok (write_over builtins entry session now (session w.channel) value w) after h)
