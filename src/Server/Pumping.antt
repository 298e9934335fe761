-- ===== src/Server/Pumping.antt =====
-- What the pump from the cloud does to a relay leaves it consistent with who acknowledges.
use growatt_datalogger.Base.{
  Bool, Bool-cases, List, [], arith, false, inl, inr, refl, some, subst, sym, true, ◌++◌, ◌∷◌, ◌≡◌,
}
use growatt_datalogger.Python.{Bytes, is_empty}
use growatt_datalogger.Relay.{
  Pump, Pumped, Relay, absent, begin_pump, degrade, end_pump, ended, finished, pump_read,
  pump_round, reading, received, round_in, scheduled,
}
use growatt_datalogger.Server.Takeover.{Exclusive}

pub degrade_idle : (r : Relay) → r.degraded ≡ true → degrade r ≡ r
unfolding degrade
degrade_idle r d = rw (d) refl

pub degrade_live :
    (r : Relay) → r.degraded ≡ false → degrade r ≡ record r { degraded = true; connected = false }
unfolding degrade
degrade_live r d = rw (d) refl

Exclusive-degrade :
    (r : Relay) (quiet : Bool) → Exclusive (some r) quiet → Exclusive (some (degrade r)) quiet
Exclusive-degrade r true h = elim (Bool-cases r.degraded) [
  | inl d ↦ subst (λ x. Exclusive (some x) true) (sym (degrade_idle r d)) h
  | inr d ↦ subst (λ x. Exclusive (some x) true) (sym (degrade_live r d)) (h.0, refl)
]
Exclusive-degrade r false h = subst (λ x. Exclusive (some x) false) (sym (degrade_idle r h.0)) h

Exclusive-same :
    (r : Relay) (pump : Pump) (downstream : List Bytes) (quiet : Bool)
    → Exclusive (some r) quiet
    → Exclusive (some (record r { pump = pump; downstream = downstream })) quiet
Exclusive-same r pump downstream true h = h
Exclusive-same r pump downstream false h = h

Exclusive-end_pump :
    (r : Relay) (quiet : Bool) → Exclusive (some r) quiet → Exclusive (some (end_pump r)) quiet
unfolding end_pump
Exclusive-end_pump r quiet h =
    Exclusive-degrade (record r { pump = ended }) quiet
      (Exclusive-same r ended r.downstream quiet h)

Exclusive-pump_read :
    (p : Pumped) (r : Relay) (quiet : Bool)
    → Exclusive (some r) quiet
    → Exclusive (some (pump_read p r)) quiet
unfolding pump_read
Exclusive-pump_read finished r quiet h = Exclusive-end_pump r quiet h
Exclusive-pump_read (received content taken) r quiet h = elim (Bool-cases (is_empty content)) [
  | inl e ↦ rw (e) (Exclusive-end_pump r quiet h)
  | inr e ↦ elim (Bool-cases taken) [
    | inl t ↦ rw (e, t) (Exclusive-same r r.pump (r.downstream ++ content ∷ []) quiet h)
    | inr t ↦ rw (e, t) (Exclusive-end_pump r quiet h)
  ]
]

Exclusive-round_in :
    (at : Pump) (p : Pumped) (r : Relay) (quiet : Bool)
    → Exclusive (some r) quiet
    → Exclusive (some (round_in at p r)) quiet
unfolding round_in
Exclusive-round_in reading p r quiet h = Exclusive-pump_read p r quiet h
Exclusive-round_in absent p r quiet h = h
Exclusive-round_in scheduled p r quiet h = h
Exclusive-round_in ended p r quiet h = h

pub Exclusive-pump_round :
    (p : Pumped) (r : Relay) (quiet : Bool)
    → Exclusive (some r) quiet
    → Exclusive (some (pump_round p r)) quiet
unfolding pump_round
Exclusive-pump_round p r quiet h = Exclusive-round_in r.pump p r quiet h

pub Exclusive-begin_pump :
    (r : Relay) (quiet : Bool)
    → Exclusive (some r) quiet
    → Exclusive (some (record r { pump = begin_pump r.pump })) quiet
Exclusive-begin_pump r quiet h = Exclusive-same r (begin_pump r.pump) r.downstream quiet h

degrade-upstream : (r : Relay) → (degrade r).upstream ≡ r.upstream
unfolding degrade
degrade-upstream r = ground arith

pump_read-upstream : (p : Pumped) (r : Relay) → (pump_read p r).upstream ≡ r.upstream
unfolding pump_read end_pump
pump_read-upstream finished r = degrade-upstream (record r { pump = ended })
pump_read-upstream (received content taken) r = elim (Bool-cases (is_empty content)) [
  | inl e ↦ rw (e) (degrade-upstream (record r { pump = ended }))
  | inr e ↦ elim (Bool-cases taken) [
    | inl t ↦ rw (e, t) refl
    | inr t ↦ rw (e, t) (degrade-upstream (record r { pump = ended }))
  ]
]

round_in-upstream : (at : Pump) (p : Pumped) (r : Relay) → (round_in at p r).upstream ≡ r.upstream
unfolding round_in
round_in-upstream reading p r = pump_read-upstream p r
round_in-upstream absent p r = refl
round_in-upstream scheduled p r = refl
round_in-upstream ended p r = refl

pub pump_round-upstream : (p : Pumped) (r : Relay) → (pump_round p r).upstream ≡ r.upstream
unfolding pump_round
pump_round-upstream p r = round_in-upstream r.pump p r
