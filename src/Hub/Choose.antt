-- ===== src/Hub/Choose.antt =====
-- hub.py: the connection to talk to a datalogger on, `session_for`. `later a b` is `a > b` on the
-- moments at which something was last seen.
use growatt_datalogger.Base.{
  Bool, List, Option, [], false, filterb, if◌then◌else◌, none, not, some, true, ◌&&◌, ◌∷◌,
}
use growatt_datalogger.Python.{Datetime, Str, str_eq}
use growatt_datalogger.Session.State.{Session}

module _ (later : Datetime → Datetime → Bool) where
  -- `>` on the keys `(s.last_seen is not None, s.last_seen)`
  unfoldable pub seen_later : Option Datetime → Option Datetime → Bool
  seen_later none b = false
  seen_later (some a) none = true
  seen_later (some a) (some b) = later a b

  -- the first of those with the greatest key
  unfoldable pub latest : Session → List Session → Session
  unfolding seen_later
  latest best [] = best
  latest best (s ∷ sessions) =
      latest (if seen_later s.last_seen best.last_seen then s else best) sessions

  abbrev pub latest_of : List Session → Option Session
  latest_of [] = none
  latest_of (s ∷ sessions) = some (latest s sessions)

is_serial : Str → Option Str → Bool
is_serial serial none = false
is_serial serial (some known) = str_eq known serial

unfoldable pub is_candidate : Str → Session → Bool
unfolding is_serial
is_candidate serial session = is_serial serial session.datalogger_serial && not session.closed

-- `session_for`
unfoldable pub session_for : (Datetime → Datetime → Bool) → List Session → Str → Option Session
unfolding latest is_candidate
session_for later sessions serial = latest_of later (filterb (is_candidate serial) sessions)
