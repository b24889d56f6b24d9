-- ===== src/Core/Snapshot.antt =====
-- The snapshot of edge_runtime/resident_core.py's core, and what the core does next.
use excavator_orin_runtime.Prelude.{
  ℕ, ◌+◌, ◌*◌, ◌≤◌, ◌≡◌, true, false, ◌&&◌, ◌||◌, none, some, arith, inl, inr, is_some,
  Option-cases, Bool-cases, ap, ◌⊎◌,
}
use excavator_orin_runtime.Prelude.Fault.{Error, ok, raised}
use excavator_orin_runtime.Motion.Authority.{pending_zero}
use excavator_orin_runtime.Sink.Requests.{is_operational}
use excavator_orin_runtime.Sink.Submit as Submit
use excavator_orin_runtime.Core.{Core, min_mission_lease_ms, max_mission_lease_ms}
use excavator_orin_runtime.Core.Control.{
  control_status_snapshot, mission_lease_is_active, lease_over, renew_mission_lease, tick,
  terminal_disarm,
}
use excavator_orin_runtime.Core.Lease.Expiry.{without_lease, tick_state, renewal_lem}

module _ (c : Core) (now : ℕ) where
  -- The lease that a snapshot shows is the one that holds.
  lease_shown :
      (control_status_snapshot now c).mission_lease_active ≡ true
      → (is_operational c.sink ≡ true) × (lease_over c.lease_deadline_ns now ≡ false)
  unfolding control_status_snapshot mission_lease_is_active
  lease_shown h = elim (Option-cases c.lease_deadline_ns) [
    | inl e ↦ absurd (ground arith)
    | inr (d, e) ↦ (ground arith, ground arith)
  ]

  lease_not_shown :
      (control_status_snapshot now c).mission_lease_active ≡ false
      → is_operational c.sink ≡ true
      → is_some c.lease_deadline_ns ≡ true
      → lease_over c.lease_deadline_ns now ≡ true
  unfolding control_status_snapshot mission_lease_is_active
  lease_not_shown h o l = elim (Option-cases c.lease_deadline_ns) [
    | inl e ↦ absurd (ground arith)
    | inr (d, e) ↦ ground arith
  ]

  never_both :
      ((control_status_snapshot now c).rl_is_active
        && (control_status_snapshot now c).act_is_active)
      ≡ false
  unfolding control_status_snapshot
  never_both = ground arith

  sources_shown :
      (((control_status_snapshot now c).rl_is_active
          || (control_status_snapshot now c).act_is_active)
        ≡ false)
      ⊎ (pending_zero c.sink.authority ≡ ok none)
  unfolding control_status_snapshot pending_zero
  sources_shown =
      elim (Bool-cases (
        (control_status_snapshot now c).rl_is_active
        || (control_status_snapshot now c).act_is_active)) [
          | inl h ↦ inr (ground arith)
          | inr h ↦ inl h
        ]

  tick_watches :
      lease_over c.lease_deadline_ns now ≡ false
      → (tick now c).1 ≡ record c { sink = (Submit.tick now c.sink).1 }
  tick_watches h = elim (tick_state c now) [ inl (l, e) ↦ absurd (cc) | inr (l, e) ↦ e ]

  tick_disarms :
      lease_over c.lease_deadline_ns now ≡ true
      → (tick now c).1 ≡ (terminal_disarm now (without_lease c)).1
  tick_disarms h = elim (tick_state c now) [ inl (l, e) ↦ e | inr (l, e) ↦ absurd (cc) ]

  renewal_shown :
      (lease : ℕ)
      → min_mission_lease_ms ≤ lease
      → lease ≤ max_mission_lease_ms
      → (control_status_snapshot now c).mission_lease_active ≡ true
      → renew_mission_lease lease now c
        ≡ (ok tt, record c { lease_deadline_ns = some (now + lease * 1000000) })
  renewal_shown lease low high h =
      let (o, l) = lease_shown h in
      elim (renewal_lem c lease now) [
        | inl (r, _, _, _, _, k) ↦ ground arith
        | inr (inl (_, inl x, _)) ↦ absurd (omega arith)
        | inr (inl (_, inr x, _)) ↦ absurd (omega arith)
        | inr (inr (inl (_, x, _))) ↦ absurd (ground arith)
        | inr (inr (inr (_, _, _, _, _, x, _))) ↦ absurd (ground arith)
      ]

  renewal_not_shown :
      (lease : ℕ)
      → min_mission_lease_ms ≤ lease
      → lease ≤ max_mission_lease_ms
      → is_operational c.sink ≡ true
      → lease_over c.lease_deadline_ns now ≡ true
      → ((e : Error) × ((renew_mission_lease lease now c).0 ≡ raised e))
        × ((renew_mission_lease lease now c).1 ≡ (terminal_disarm now c).1)
  renewal_not_shown lease low high o l = elim (renewal_lem c lease now) [
    | inl (_, _, _, _, x, _) ↦ absurd (ground arith)
    | inr (inl (_, inl x, _)) ↦ absurd (omega arith)
    | inr (inl (_, inr x, _)) ↦ absurd (omega arith)
    | inr (inr (inl (_, x, _))) ↦ absurd (ground arith)
    | inr (inr (inr (e, r, _, _, _, _, k))) ↦ ((e, r), k)
  ]

  lease_foretold :
      (lease : ℕ)
      → min_mission_lease_ms ≤ lease
      → lease ≤ max_mission_lease_ms
      → (((control_status_snapshot now c).mission_lease_active ≡ true)
          × (renew_mission_lease lease now c
              ≡ (ok tt, record c { lease_deadline_ns = some (now + lease * 1000000) }))
          × ((tick now c).1 ≡ record c { sink = (Submit.tick now c.sink).1 }))
        ⊎ (((control_status_snapshot now c).mission_lease_active ≡ false)
            × ((is_operational c.sink ≡ false)
                ⊎ (c.lease_deadline_ns ≡ none)
                ⊎ (((e : Error) × ((renew_mission_lease lease now c).0 ≡ raised e))
                    × ((renew_mission_lease lease now c).1 ≡ (terminal_disarm now c).1)
                    × ((tick now c).1 ≡ (terminal_disarm now (without_lease c)).1))))
  lease_foretold lease low high =
      elim (Bool-cases (control_status_snapshot now c).mission_lease_active) [
        | inl h ↦ inl (h, renewal_shown lease low high h, tick_watches (lease_shown h).1)
        | inr h ↦ elim (Bool-cases (is_operational c.sink)) [
          | inr o ↦ inr (h, inl o)
          | inl o ↦ elim (Option-cases c.lease_deadline_ns) [
            | inl n ↦ inr (h, inr (inl n))
            | inr (d, l) ↦
                let over = lease_not_shown h o (ap is_some l) in
                let (raises, disarmed) = renewal_not_shown lease low high o over in
                inr (h, inr (inr (raises, disarmed, tick_disarms over)))
          ]
        ]
      ]

-- What a snapshot of the core says of the calls that come next at the same time, with a length of a
-- lease within [500, 5000] ms. It never shows RL and ACT active together, and it shows one of them
-- only where no zero is pending in the authority. Either it shows the mission lease as active, and
-- then a renewal succeeds and a tick is no more than the watchdog of the sink; or it does not, and
-- then the sink is not operational, or there is no lease, or a renewal raises and disarms the core,
-- and a tick disarms it.
pub snapshot_foretells :
    (now lease : ℕ) (c : Core)
    → min_mission_lease_ms ≤ lease
    → lease ≤ max_mission_lease_ms
    → let s = control_status_snapshot now c in
      ((s.rl_is_active && s.act_is_active) ≡ false)
      × (((s.rl_is_active || s.act_is_active) ≡ false) ⊎ (pending_zero c.sink.authority ≡ ok none))
      × (((s.mission_lease_active ≡ true)
            × (renew_mission_lease lease now c
                ≡ (ok tt, record c { lease_deadline_ns = some (now + lease * 1000000) }))
            × ((tick now c).1 ≡ record c { sink = (Submit.tick now c.sink).1 }))
          ⊎ ((s.mission_lease_active ≡ false)
              × ((s.operational ≡ false)
                  ⊎ (c.lease_deadline_ns ≡ none)
                  ⊎ (((e : Error) × ((renew_mission_lease lease now c).0 ≡ raised e))
                      × ((renew_mission_lease lease now c).1 ≡ (terminal_disarm now c).1)
                      × ((tick now c).1 ≡ (terminal_disarm now (without_lease c)).1)))))
unfolding control_status_snapshot
snapshot_foretells now lease c low high =
    (never_both c now, sources_shown c now, lease_foretold c now lease low high)
