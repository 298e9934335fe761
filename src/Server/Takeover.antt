-- ===== src/Server/Takeover.antt =====
-- Who acknowledges: the cloud or this server, over everything that may happen to a connection.
use growatt_datalogger.Base.{
  Bool, Bool-cases, List, Option, [], ap, false, if◌then◌else◌, inl, inr, ltb, none, not, refl,
  some, subst, sym, true, ℕ, ◌&&◌, ◌++◌, ◌∙◌, ◌∷◌, ◌≡◌, ◌⊎◌,
}
use growatt_datalogger.Framing.{Framer}
use growatt_datalogger.Python.{Bytes}
use growatt_datalogger.Relay.{Relay, Upstream, degrade, forward, start}
use growatt_datalogger.Server.Keeps.{suppressed}
use growatt_datalogger.Server.Link.{Link, open_link, relay_chunk, take_over}
use growatt_datalogger.Session.State.{Session, World}

abbrev pub Exclusive : Option Relay → Bool → Type 0
Exclusive none quiet = quiet ≡ false
Exclusive (some r) true = (r.has_writer ≡ true) × (r.connected ≡ not r.degraded)
Exclusive (some r) false = (r.degraded ≡ true) × (r.connected ≡ false)

-- A link where exactly one side is to acknowledge.
pub record IsExclusive (link : Link) : Type 0 where
  pub exclusive : Exclusive link.relay (suppressed link.world)

abbrev pub upstream_of : Option Relay → List Bytes
upstream_of none = []
upstream_of (some r) = r.upstream

-- What a chunk has done: the cloud has it and this server is quiet, or neither.
abbrev pub OneSide : Link → Bytes → Link → Type 0
OneSide link content after =
    ((suppressed after.world ≡ true)
      × (upstream_of after.relay ≡ upstream_of link.relay ++ content ∷ []))
    ⊎ ((suppressed after.world ≡ false) × (upstream_of after.relay ≡ upstream_of link.relay))

pub open_link-IsExclusive :
    (framer : Framer) (push : Bool) (config : Option (ℕ × Bool))
    → IsExclusive (open_link framer push config)
unfolding start degrade
open_link-IsExclusive framer push none = record { exclusive = refl }
open_link-IsExclusive framer push (some (limit, true)) = record { exclusive = (refl, refl) }
open_link-IsExclusive framer push (some (limit, false)) = record { exclusive = (refl, refl) }

-- Whatever becomes of the forwarding, what the session then does is settled by whether it degraded.
abbrev pub settled : Relay → Bool → Bool
settled r quiet = if r.degraded && quiet then false else quiet

pub take_over-settled :
    (r : Relay) (s : Session)
    → (take_over (some r) s).suppress_replies ≡ settled r s.suppress_replies
unfolding take_over
take_over-settled r s = elim (Bool-cases (r.degraded && s.suppress_replies)) [
  | inl h ↦ rw (h) refl
  | inr h ↦ rw (h) refl
]

abbrev pub Settled : Relay → Bytes → Relay → Bool → Type 0
Settled r content after quiet =
    Exclusive (some after) quiet
    × (((quiet ≡ true) × (after.upstream ≡ r.upstream ++ content ∷ []))
        ⊎ ((quiet ≡ false) × (after.upstream ≡ r.upstream)))

pub forward_idle :
    (up : Upstream) (content : Bytes) (r : Relay) → r.connected ≡ false → forward up content r ≡ r
unfolding forward
forward_idle up content r h = rw (h) refl

abbrev dropped : Relay → Relay
dropped r = record r { degraded = true; connected = false }

forward_live :
    (up : Upstream) (content : Bytes) (r : Relay)
    → r.connected ≡ true
    → r.has_writer ≡ true
    → r.degraded ≡ false
    → forward up content r ≡ (
        if ltb r.max_buffer up.held
        then dropped r
        else if up.accepts
        then record r { upstream = r.upstream ++ content ∷ [] }
        else dropped r)
unfolding forward degrade
forward_live up content r c w d = rw (c, w, d) refl

Settled-dropped :
    (content : Bytes) (r : Relay) → Settled r content (dropped r) (settled (dropped r) true)
Settled-dropped content r = ((refl, refl), inr (refl, refl))

Settled-written :
    (content : Bytes) (r : Relay)
    → r.connected ≡ true
    → r.has_writer ≡ true
    → r.degraded ≡ false
    → Settled r content
        (record r { upstream = r.upstream ++ content ∷ [] })
        (settled (record r { upstream = r.upstream ++ content ∷ [] }) true)
Settled-written content r c w d = rw (d) ((w, c), inl (refl, refl))

Settled-live :
    (up : Upstream) (content : Bytes) (r : Relay)
    → r.connected ≡ true
    → r.has_writer ≡ true
    → r.degraded ≡ false
    → Settled r content (forward up content r) (settled (forward up content r) true)
Settled-live up content r c w d =
    rw (forward_live up content r c w d) (elim (Bool-cases (ltb r.max_buffer up.held)) [
      | inl h ↦ rw (h) (Settled-dropped content r)
      | inr h ↦ elim (Bool-cases up.accepts) [
        | inl a ↦ rw (h, a) (Settled-written content r c w d)
        | inr a ↦ rw (h, a) (Settled-dropped content r)
      ]
    ])

settled-degraded : (r : Relay) (quiet : Bool) → r.degraded ≡ true → settled r quiet ≡ false
settled-degraded r true d = rw (d) refl
settled-degraded r false d = rw (d) refl

Settled-idle :
    (content : Bytes) (r : Relay) (quiet : Bool)
    → r.degraded ≡ true
    → r.connected ≡ false
    → Settled r content r (settled r quiet)
Settled-idle content r quiet d c =
    subst (λ q. Settled r content r q) (sym (settled-degraded r quiet d)) ((d, c), inr (refl, refl))

Settled-forward_idle :
    (up : Upstream) (content : Bytes) (r : Relay) (quiet : Bool)
    → r.degraded ≡ true
    → r.connected ≡ false
    → Settled r content (forward up content r) (settled (forward up content r) quiet)
Settled-forward_idle up content r quiet d c =
    subst (λ after. Settled r content after (settled after quiet))
      (sym (forward_idle up content r c)) (Settled-idle content r quiet d c)

pub forward-Settled :
    (up : Upstream) (content : Bytes) (r : Relay) (quiet : Bool)
    → Exclusive (some r) quiet
    → Settled r content (forward up content r) (settled (forward up content r) quiet)
forward-Settled up content r true h = elim (Bool-cases r.degraded) [
  | inl d ↦ Settled-forward_idle up content r true d (h.1 ∙ ap not d)
  | inr d ↦ Settled-live up content r (h.1 ∙ ap not d) h.0 d
]
forward-Settled up content r false h = Settled-forward_idle up content r false h.0 h.1

relay_chunk-some :
    (up : Upstream) (content : Bytes) (framer : Framer) (w : World) (r : Relay)
    → Exclusive (some r) (suppressed w)
    → Settled r content (forward up content r) (
        suppressed
          (relay_chunk up content (record { framer = framer; world = w; relay = some r })).world)
unfolding relay_chunk
relay_chunk-some up content framer w r h =
    subst (λ q. Settled r content (forward up content r) q)
      (sym (take_over-settled (forward up content r) w.session))
      (forward-Settled up content r (suppressed w) h)

pub relay_chunk_lem :
    (up : Upstream) (content : Bytes) (framer : Framer) (w : World) (relay : Option Relay)
    → Exclusive relay (suppressed w)
    → (let link : Link = record { framer = framer; world = w; relay = relay } in
        IsExclusive (relay_chunk up content link)
        × OneSide link content (relay_chunk up content link))
unfolding relay_chunk
relay_chunk_lem up content framer w none h =
    (record { exclusive = unfold take_over in h }, inr (unfold take_over in h, refl))
relay_chunk_lem up content framer w (some r) h =
    let settled = relay_chunk-some up content framer w r h in
    (record { exclusive = settled.0 }, settled.1)
