-- ===== src/FixedCycle/Coordinator/Closing.antt =====
-- What a disarm and a dispatch of the coordinator of edge_runtime/resident_fixed_cycle.py do to the
-- mission, to the flag of the terminal disarm, and to the calls of the driver.
use excavator_orin_runtime.Prelude.{
  ◌≡◌, refl, ap, ◌∙◌, true, false, Bool, List, [], ◌∷◌, arith, Bool-cases, inl, inr, ◌⊎◌,
}
use excavator_orin_runtime.Prelude.Fault.{
  Error, Outcome, ok, raised, runtime_error, dispatch_failed, dispatch_and_disarm_failed,
  Outcome-cases,
}
use excavator_orin_runtime.FixedCycle.Values.{identifier, is_safe_id}
use excavator_orin_runtime.FixedCycle.Machine.{
  Stage, failed, Directive, Cycle, new_cycle, is_active, failed_by,
}
use excavator_orin_runtime.FixedCycle.Machine as Machine
use excavator_orin_runtime.FixedCycle.Coordinator.{
  DriverCall, disarm, Answered, Coordinator, reply, terminal_disarm, in_cycle, dispatch_unchecked,
  abandon, dispatch,
}

-- The latest call of the driver was a disarm, and it returned.
abbrev pub disarm_confirmed : List Answered → Bool
disarm_confirmed [] = false
disarm_confirmed (a ∷ later) = returned_disarm a.call a.answer
  where
    returned_disarm : DriverCall → Outcome (Unit {0}) → Bool
    returned_disarm disarm (ok u) = true
    returned_disarm _ _ = false

-- The flag is set only by a disarm that returned.
abbrev pub Confirmed : Coordinator → Type 0
Confirmed c = c.terminal_disarmed ≡ true → disarm_confirmed c.calls ≡ true

-- The disarm returns exactly when it has been confirmed; the mission is as before.
pub terminal_disarm_lem :
    (c : Coordinator)
    → ((terminal_disarm c).1.cycle ≡ c.cycle)
      × (((terminal_disarm c).0 ≡ ok tt) × ((terminal_disarm c).1.terminal_disarmed ≡ true)
          ⊎ (e : Error) × ((terminal_disarm c).0 ≡ raised e)
            × ((terminal_disarm c).1.terminal_disarmed ≡ c.terminal_disarmed))
unfolding terminal_disarm
terminal_disarm_lem c = elim (Bool-cases c.terminal_disarmed) [
  | inl d ↦ rw d (refl, inl (refl, refl))
  | inr d ↦ rw d (elim (Outcome-cases (reply c.replies)) [
    | inl (u, r) ↦ rw r (refl, inl (refl, refl))
    | inr (e, r) ↦ rw r (refl, inr (e, refl, refl))
  ])
]

pub terminal_disarm-Confirmed : (c : Coordinator) → Confirmed c → Confirmed (terminal_disarm c).1
unfolding terminal_disarm
terminal_disarm-Confirmed c h = elim (Bool-cases c.terminal_disarmed) [
  | inl d ↦ rw d (λ _. h d)
  | inr d ↦ rw d (elim (Outcome-cases (reply c.replies)) [
    | inl (u, r) ↦ rw r (λ _. refl)
    | inr (e, r) ↦ rw r (λ t. absurd (ground arith))
  ])
]

-- A directive that was taken has started a child.
unchecked_starts :
    (d : Directive) (c : Coordinator)
    → (dispatch_unchecked d c).0 ≡ ok tt
    → disarm_confirmed (dispatch_unchecked d c).1.calls ≡ false
unfolding dispatch_unchecked
unchecked_starts d c h = ground arith

unchecked_keeps :
    (d : Directive) (c : Coordinator)
    → ((dispatch_unchecked d c).1.cycle ≡ c.cycle)
      × ((dispatch_unchecked d c).1.terminal_disarmed ≡ c.terminal_disarmed)
unfolding dispatch_unchecked
unchecked_keeps d c = (ground arith, ground arith)

-- What a dispatch comes to: the driver took the directive and nothing else changed, or the mission
-- has failed, and the driver is disarmed unless the disarm failed too.
abbrev pub Dispatched : Coordinator → Outcome (Unit {0}) × Coordinator → Type 0
Dispatched c x =
    (x.0 ≡ ok tt)
      × (x.1.cycle ≡ c.cycle)
      × (x.1.terminal_disarmed ≡ c.terminal_disarmed)
      × (disarm_confirmed x.1.calls ≡ false)
    ⊎ (x.1.cycle ≡ record c.cycle { snapshot = failed_by "LOCAL_DISPATCH_FAILED" c.cycle.snapshot })
      × ((x.0 ≡ raised (runtime_error dispatch_failed)) × (x.1.terminal_disarmed ≡ true)
          ⊎ (x.0 ≡ raised (runtime_error dispatch_and_disarm_failed))
            × (x.1.terminal_disarmed ≡ c.terminal_disarmed))

abbrev pub failed_cycle : Cycle → Cycle
failed_cycle k = record k { snapshot = failed_by "LOCAL_DISPATCH_FAILED" k.snapshot }

abbrev failing : Coordinator → Coordinator
failing c = record c { cycle = failed_cycle c.cycle }

machine-fail :
    (k : Cycle)
    → is_active k ≡ true
    → Machine.fail "LOCAL_DISPATCH_FAILED" k
      ≡ (ok tt, record k { snapshot = failed_by "LOCAL_DISPATCH_FAILED" k.snapshot })
unfolding Machine.fail identifier is_safe_id
machine-fail k a = rw a refl

abandon_lem :
    (c : Coordinator)
    → is_active c.cycle ≡ true
    → ((abandon c).1.cycle ≡ (failing c).cycle)
      × (((abandon c).0 ≡ raised (runtime_error dispatch_failed))
            × ((abandon c).1.terminal_disarmed ≡ true)
          ⊎ ((abandon c).0 ≡ raised (runtime_error dispatch_and_disarm_failed))
            × ((abandon c).1.terminal_disarmed ≡ c.terminal_disarmed))
unfolding abandon in_cycle
abandon_lem c a = rw (machine-fail c.cycle a) (
    let (k, z) = terminal_disarm_lem (failing c) in
    elim z [ inl (o, d) ↦ rw o (k, inl (refl, d)) | inr (e, o, d) ↦ rw o (k, inr (refl, d)) ])

pub dispatch-Dispatched :
    (d : Directive) (c : Coordinator) → is_active c.cycle ≡ true → Dispatched c (dispatch d c)
unfolding dispatch
dispatch-Dispatched d c a =
    let (k, t) = unchecked_keeps d c in
    elim (Outcome-cases (dispatch_unchecked d c).0) [
      | inl (u, o) ↦ rw o (inl (refl, k, t, unchecked_starts d c o))
      | inr (e, o) ↦ rw o (
          let (q, z) = abandon_lem (dispatch_unchecked d c).1 (rw k a) in
          inr (q ∙ ap failed_cycle k, elim z [ inl p ↦ inl p | inr (p, u) ↦ inr (p, u ∙ t) ]))
    ]

abandon-Confirmed :
    (c : Coordinator) → is_active c.cycle ≡ true → Confirmed c → Confirmed (abandon c).1
unfolding abandon in_cycle
abandon-Confirmed c a h = rw (machine-fail c.cycle a) (
    let q = terminal_disarm-Confirmed (failing c) h in
    elim (Outcome-cases (terminal_disarm (failing c)).0) [
      | inl (u, o) ↦ rw o q
      | inr (e, o) ↦ rw o q
    ])

pub dispatch-Confirmed :
    (d : Directive) (c : Coordinator)
    → is_active c.cycle ≡ true
    → c.terminal_disarmed ≡ false
    → Confirmed (dispatch d c).1
unfolding dispatch
dispatch-Confirmed d c a f =
    let (k, t) = unchecked_keeps d c in
    let off : Confirmed (dispatch_unchecked d c).1 = λ h. absurd (ground arith) in
    elim (Outcome-cases (dispatch_unchecked d c).0) [
      | inl (u, o) ↦ rw o off
      | inr (e, o) ↦ rw o (abandon-Confirmed (dispatch_unchecked d c).1 (rw k a) off)
    ]
