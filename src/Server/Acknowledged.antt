-- ===== src/Server/Acknowledged.antt =====
-- Who acknowledges a chunk, at every moment of a connection's life.
use growatt_datalogger.Base.{
  Bool, Bool-cases, List, Option, [], ap, false, inl, inr, none, refl, some, subst, sym, true, ℕ,
  ◌&&◌, ◌++◌, ◌∙◌, ◌∷◌, ◌≡◌, ◌⊎◌,
}
use growatt_datalogger.Framing.{Framer, feed}
use growatt_datalogger.Python.{Bytes}
use growatt_datalogger.Relay.{Relay, Upstream}
use growatt_datalogger.Server.Hushed.{Hushes-handle_fed}
use growatt_datalogger.Server.Keeps.{suppressed}
use growatt_datalogger.Server.Link.{
  Link, forward_to, handle_fed, open_link, process_chunk, relay_chunk, take_over,
}
use growatt_datalogger.Server.Pumping.{pump_round-upstream}
use growatt_datalogger.Server.Steps.{
  Keeps-begin_command, Keeps-begin_push_time, Keeps-end_command, Keeps-end_push, Move,
  Move-IsExclusive, Moves, Moves-IsExclusive, begin, begin_push, fed_suppressed, finish,
  finish_push, pump, read, schedule, stay, step,
}
use growatt_datalogger.Server.Takeover.{
  Exclusive, IsExclusive, OneSide, forward_idle, open_link-IsExclusive, relay_chunk_lem,
  upstream_of,
}
use growatt_datalogger.Session.Quiet.{After}
use growatt_datalogger.Session.State.{Env, Event, Session}

Moves-reached :
    (framer : Framer) (push : Bool) (config : Option (ℕ × Bool)) (link : Link)
    → Moves (open_link framer push config) link
    → IsExclusive link
Moves-reached framer push config link ms =
    Moves-IsExclusive (open_link framer push config) link ms
      (open_link-IsExclusive framer push config)

-- The chunk has gone to the cloud and this server has sent nothing for it; or it has not, and this
-- server's session does not suppress its replies.
abbrev pub OneAcknowledges : Link → Bytes → Link → Type 0
OneAcknowledges link content after =
    ((upstream_of after.relay ≡ upstream_of link.relay ++ content ∷ [])
      × After link.world.events after.world.events)
    ⊎ ((upstream_of after.relay ≡ upstream_of link.relay) × (suppressed after.world ≡ false))

process_chunk-OneSide :
    (env : ℕ → Env) (n : ℕ) (content : Bytes) (before : Link) (link : Link)
    → link.world.events ≡ before.world.events
    → OneSide before content link
    → OneAcknowledges before content (process_chunk env n content link).1
unfolding process_chunk
process_chunk-OneSide env n content before link e (inl x) = inl (
  x.1,
  subst
      (λ (events : List Event).
        After events (handle_fed env n (feed link.framer content).0 link.world).1.events)
      e ((Hushes-handle_fed env n (feed link.framer content).0).at link.world x.0),
)
process_chunk-OneSide env n content before link e (inr x) =
    inr (x.1, fed_suppressed env n (feed link.framer content).0 link.world ∙ x.0)

relay_chunk-events :
    (up : Upstream) (content : Bytes) (link : Link)
    → (relay_chunk up content link).world.events ≡ link.world.events
unfolding relay_chunk
relay_chunk-events up content link = refl

-- At every moment of a connection, however it was opened and whatever reads, commands, clock
-- updates and relay rounds it has seen, a chunk that is read and handled has either been written
-- to the cloud as it is, and the session has then sent nothing for it, or the cloud has not got
-- it, and the session does not suppress its replies.
pub read-OneAcknowledges :
    (framer : Framer) (push : Bool) (config : Option (ℕ × Bool)) (link : Link) (env : ℕ → Env)
    (n : ℕ) (up : Upstream) (content : Bytes)
    → Moves (open_link framer push config) link
    → OneAcknowledges link content (process_chunk env n content (relay_chunk up content link)).1
read-OneAcknowledges framer push config link env n up content ms =
    let x = Moves-reached framer push config link ms in
    process_chunk-OneSide env n content link (relay_chunk up content link)
      (relay_chunk-events up content link)
      (relay_chunk_lem up content link.framer link.world link.relay x.exclusive).1

-- This server acknowledges from here on, and the cloud gets nothing.
pub record IsTakenOver (link : Link) (after : Link) : Type 0 where
  pub ours : suppressed after.world ≡ false
  pub nothing : upstream_of after.relay ≡ upstream_of link.relay

idle-upstream :
    (up : Upstream) (content : Bytes) (relay : Option Relay) (quiet : Bool)
    → Exclusive relay quiet
    → quiet ≡ false
    → upstream_of (forward_to relay up content) ≡ upstream_of relay
idle-upstream up content none quiet h q = refl
idle-upstream up content (some r) true h q = cc
idle-upstream up content (some r) false h q =
    ap (λ (x : Relay). x.upstream) (forward_idle up content r h.1)

take_over-false :
    (relay : Option Relay) (s : Session)
    → s.suppress_replies ≡ false
    → (take_over relay s).suppress_replies ≡ false
unfolding take_over
take_over-false none s h = h
take_over-false (some r) s h = elim (Bool-cases (r.degraded && s.suppress_replies)) [
  | inl e ↦ rw (e) refl
  | inr e ↦ rw (e) h
]

read-IsTakenOver :
    (env : ℕ → Env) (n : ℕ) (up : Upstream) (content : Bytes) (link : Link)
    → IsExclusive link
    → suppressed link.world ≡ false
    → IsTakenOver link (process_chunk env n content (relay_chunk up content link)).1
unfolding process_chunk relay_chunk
read-IsTakenOver env n up content link x h = record {
  ours =
      fed_suppressed env n (feed link.framer content).0 (relay_chunk up content link).world
      ∙ take_over-false (forward_to link.relay up content) link.world.session h;
  nothing = idle-upstream up content link.relay (suppressed link.world) x.exclusive h;
}

Move-IsTakenOver :
    (a b : Link) → Move a b → IsExclusive a → suppressed a.world ≡ false → IsTakenOver a b
Move-IsTakenOver _ _ (read env n up content link) x h = read-IsTakenOver env n up content link x h
Move-IsTakenOver _ _ (begin env command link) x h = record {
  ours = (Keeps-begin_command env command).at link.world ∙ h;
  nothing = refl;
}
Move-IsTakenOver _ _ (finish link) x h = record {
  ours = Keeps-end_command.at link.world ∙ h;
  nothing = refl;
}
Move-IsTakenOver _ _ (begin_push env link) x h = record {
  ours = (Keeps-begin_push_time env).at link.world ∙ h;
  nothing = refl;
}
Move-IsTakenOver _ _ (finish_push result link) x h = record {
  ours = Keeps-end_push result link.world ∙ h;
  nothing = refl;
}
Move-IsTakenOver _ _ (schedule link r e) x h = record { ours = h; nothing = sym (ap upstream_of e) }
Move-IsTakenOver _ _ (pump p link r e) x h = record {
  ours = h;
  nothing = pump_round-upstream p r ∙ sym (ap upstream_of e);
}

Moves-IsTakenOver_from :
    (a b : Link) → Moves a b → IsExclusive a → suppressed a.world ≡ false → IsTakenOver a b
Moves-IsTakenOver_from _ _ (stay link) x h = record { ours = h; nothing = refl }
Moves-IsTakenOver_from _ _ (step a b c m ms) x h =
    let once = Move-IsTakenOver a b m x h in
    let rest = Moves-IsTakenOver_from b c ms (Move-IsExclusive a b m x) once.ours in
    record { ours = rest.ours; nothing = rest.nothing ∙ once.nothing }

-- From any moment of a connection at which its session does not suppress its replies, however it
-- got there, the session never suppresses them again and nothing more is written to the cloud,
-- whatever happens to the connection.
pub Moves-IsTakenOver :
    (framer : Framer) (push : Bool) (config : Option (ℕ × Bool)) (link after : Link)
    → Moves (open_link framer push config) link
    → Moves link after
    → suppressed link.world ≡ false
    → IsTakenOver link after
Moves-IsTakenOver framer push config link after ms more h =
    Moves-IsTakenOver_from link after more (Moves-reached framer push config link ms) h
