-- ===== src/Motion/Authority/Handoff.antt =====
-- Sequences of calls on edge_runtime/resident_motion.py's authority, and the zeros that they need.
use excavator_orin_runtime.Prelude.{
  ℕ, ◌+◌, ◌≤◌, ◌≡◌, ◌≢◌, refl, ap, sym, ◌∙◌, ◌⊎◌, inl, inr, Option, none, some, List, [], ◌∷◌, ◌++◌,
  arith, is_some, if◌then◌else◌,
}
use excavator_orin_runtime.Prelude.Fault.{ok, raised}
use excavator_orin_runtime.Prelude.Float.{float_eq}
use excavator_orin_runtime.Motion.{
  ControlMode, terminal_zero_pending, active, zero_action, is_zero, action_eq, PolicyBinding,
  policy_binding,
}
use excavator_orin_runtime.Motion.Authority.{
  Authority, request_handoff, request_stop, pending_zero, acknowledge_zero, record_handoff_latency,
}
use excavator_orin_runtime.Motion.Authority.Coherence.{IsCoherent}
use excavator_orin_runtime.Motion.Authority.Calls.{
  Call, handoff, stop, acknowledge, latency, step, zero_taken, run, push_taken, zeros_taken,
  step-IsCoherent,
}

-- A source that is in force, or whose last zero is awaited.
abbrev Holds : PolicyBinding → Authority → Type 0
Holds b s = (s.active_binding ≡ some b) × ((s.phase ≡ active) ⊎ (s.phase ≡ terminal_zero_pending))

-- Nothing takes the source away but the acknowledgement of a zero in its own mode.
step-Holds :
    (c : Call) (b : PolicyBinding) (s : Authority)
    → IsCoherent s
    → Holds b s
    → ((zero_taken c s ≡ none) × Holds b (step c s))
      ⊎ ((zero_taken c s ≡ some b.mode) × (step c s).phase ≢ active)
unfolding step request_handoff request_stop acknowledge_zero record_handoff_latency
step-Holds (handoff b' now) b s v h = ground arith
step-Holds (stop now) b s v h = ground arith
step-Holds (acknowledge g m a t) b s v h = ground arith
step-Holds (latency g started completed) b s v h = ground arith

-- A source in force came by the acknowledgement of a zero in its mode, or was there before.
step_into_active :
    (c : Call) (b : PolicyBinding) (s : Authority)
    → IsCoherent s
    → (step c s).phase ≡ active
    → (step c s).active_binding ≡ some b
    → (zero_taken c s ≡ some b.mode)
      ⊎ ((zero_taken c s ≡ none)
          × (s.phase ≡ active)
          × (s.active_binding ≡ some b)
          × (s.generation ≡ (step c s).generation))
unfolding step request_handoff request_stop acknowledge_zero record_handoff_latency
step_into_active (handoff b' now) b s v p e = ground arith
step_into_active (stop now) b s v p e = ground arith
step_into_active (acknowledge g m a t) b s v p e = ground arith
step_into_active (latency g started completed) b s v p e = ground arith

prepend :
    (o : Option ControlMode) (ms before : List ControlMode) (m : ControlMode)
    → ms ≡ before ++ m ∷ []
    → push_taken o ms ≡ push_taken o before ++ m ∷ []
prepend none ms before m e = e
prepend (some x) ms before m e = ap (λ l. x ∷ l) e

push_alone :
    (o : Option ControlMode) (ms : List ControlMode) (m : ControlMode)
    → o ≡ some m
    → ms ≡ []
    → push_taken o ms ≡ m ∷ []
push_alone o ms m p q = rw (p, q)

push_none : (o : Option ControlMode) (ms : List ControlMode) → o ≡ none → push_taken o ms ≡ ms
push_none o ms p = rw p

-- Calls that end with a source in force took its zero last, or took none and changed nothing.
ends_with_target :
    (cs : List Call) (b : PolicyBinding) (s : Authority)
    → IsCoherent s
    → (run cs s).phase ≡ active
    → (run cs s).active_binding ≡ some b
    → ((before : List ControlMode) × (zeros_taken cs s ≡ before ++ b.mode ∷ []))
      ⊎ ((zeros_taken cs s ≡ [])
          × (s.phase ≡ active)
          × (s.active_binding ≡ some b)
          × (s.generation ≡ (run cs s).generation))
unfolding run zeros_taken
ends_with_target [] b s v p e = inr (refl, p, e, refl)
ends_with_target (c ∷ cs) b s v p e =
    elim (ends_with_target cs b (step c s) (step-IsCoherent c s v) p e) [
      | inl (before, z) ↦
          inl (push_taken (zero_taken c s) before, prepend (zero_taken c s) _ before b.mode z)
      | inr (none_left, p', e', g) ↦ elim (step_into_active c b s v p' e') [
        | inl taken ↦ inl ([], push_alone (zero_taken c s) _ b.mode taken none_left)
        | inr (n, p'', e'', g') ↦ inr (push_none (zero_taken c s) _ n ∙ none_left, p'', e'', g' ∙ g)
      ]
    ]

-- From a source in force, the first zero that is taken is in its own mode.
starts_with_source :
    (cs : List Call) (b b' : PolicyBinding) (s : Authority)
    → IsCoherent s
    → Holds b s
    → (run cs s).phase ≡ active
    → (run cs s).active_binding ≡ some b'
    → ((between : List ControlMode) × (zeros_taken cs s ≡ b.mode ∷ between ++ b'.mode ∷ []))
      ⊎ (zeros_taken cs s ≡ [])
unfolding run zeros_taken
starts_with_source [] b b' s v h p e = inr refl
starts_with_source (c ∷ cs) b b' s v h p e = elim (step-Holds c b s v h) [
  | inl (n, h') ↦
      rw (push_none (zero_taken c s) (zeros_taken cs (step c s)) n)
        (starts_with_source cs b b' (step c s) (step-IsCoherent c s v) h' p e)
  | inr (taken, left) ↦ elim (ends_with_target cs b' (step c s) (step-IsCoherent c s v) p e) [
    | inl (between, z) ↦ inl (between, rw (taken, z))
    | inr (_, p', _, _) ↦ absurd (left p')
  ]
]

-- Whatever calls lead a coherent authority from a source b in force to a source b' in force under
-- another generation, it took a zero in the mode of b first and a zero in the mode of b' last, and
-- these are two acknowledgements.
pub switch_needs_zeros :
    (cs : List Call) (b b' : PolicyBinding) (s : Authority)
    → IsCoherent s
    → s.phase ≡ active
    → s.active_binding ≡ some b
    → (run cs s).phase ≡ active
    → (run cs s).active_binding ≡ some b'
    → (run cs s).generation ≢ s.generation
    → (between : List ControlMode) × (zeros_taken cs s ≡ b.mode ∷ between ++ b'.mode ∷ [])
switch_needs_zeros cs b b' s v p e p' e' g =
    elim (starts_with_source cs b b' s v (e, inl p) p' e') [
      | inl found ↦ found
      | inr nothing ↦ elim (ends_with_target cs b' s v p' e') [
        | inl (before, z) ↦ absurd (not_empty before b'.mode (sym z ∙ nothing))
        | inr (_, _, _, same) ↦ absurd (g (sym same))
      ]
    ]
  where
    not_empty : (xs : List ControlMode) (m : ControlMode) → xs ++ m ∷ [] ≡ [] → ⊥
    not_empty [] m e = cc
    not_empty (x ∷ xs) m e = cc

-- The serial owner writes the pending zero, and the telemetry of a time t proves it.
pub acknowledge_pending : ℕ → Authority → Authority
acknowledge_pending t s = elim (pending_zero s) [
  | raised e ↦ s
  | ok none ↦ s
  | ok (some z) ↦ (acknowledge_zero z.generation z.mode zero_action t s).1
]

-- A handoff to a valid binding in a coherent authority comes to an end: after the pending zeros of
-- at most two telemetry times at or after the request, the target is in force under the generation
-- of the request.
pub handoff_completes :
    (b target : PolicyBinding) (now t t' : ℕ) (s : Authority)
    → policy_binding b.source b.mode ≡ ok target
    → IsCoherent s
    → now ≤ t
    → now ≤ t'
    → let s' = acknowledge_pending t (request_handoff b now s).1 in
      let s'' = if is_some s.active_binding then acknowledge_pending t' s' else s' in
      (s''.phase ≡ active)
      × (s''.active_binding ≡ some target)
      × (s''.generation ≡ s.generation + 1)
unfolding acknowledge_pending pending_zero acknowledge_zero request_handoff is_zero action_eq
    float_eq
handoff_completes b target now t t' s e v h h' = ground arith
