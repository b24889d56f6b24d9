-- ===== src/Ingress/Candidates.antt =====
-- What becomes of a candidate that a worker sends to the adapter of edge_runtime/resident_ingress.py.
use excavator_orin_runtime.Prelude.{
  ℕ, ◌≡◌, ◌≢◌, refl, ◌⊎◌, inl, inr, true, some, arith, ◌==◌, str_eq, str_eq_iff, Bool-cases,
}
use excavator_orin_runtime.Prelude.Fault.{
  Error, Fault, source_mismatch, mode_mismatch, value_error, runtime_error, os_error,
  overflow_error, type_error, key_error, index_error, zero_division_error, Outcome, ok, raised,
  Outcome-cases,
}
use excavator_orin_runtime.Motion.{
  ControlMode, manual_action, velocity_reference, mode_eq, PolicyBinding, MotionCandidate,
}
use excavator_orin_runtime.Motion.Authority.{stale_generation}
use excavator_orin_runtime.Json.{Payload}
use excavator_orin_runtime.Protocol.{decode_motion_candidate}
use excavator_orin_runtime.Sink.{WriteResult}
use excavator_orin_runtime.Sink.Requests.{request_source_stop, not_written}
use excavator_orin_runtime.Sink.Submit.{submit_candidate}
use excavator_orin_runtime.Ingress.{Seat, revoke, without_generation}
use excavator_orin_runtime.Ingress.Candidate as Candidate

-- The contract of the generation is violated: by a payload that is refused as a value, or by a
-- candidate of the generation that names another source or mode.
abbrev pub Violates : PolicyBinding → ℕ → Outcome MotionCandidate → Type 0
Violates b g (raised (value_error f)) = Unit
Violates b g (raised _) = ⊥
Violates b g (ok c) = (c.generation ≡ g) × ((c.source ≢ b.source) ⊎ (c.mode ≢ b.mode))

-- The four ways of a payload, by what it decodes to.
abbrev pub Sent :
    PolicyBinding → ℕ → ℕ → Seat → Outcome MotionCandidate → Outcome WriteResult × Seat → Type 0
Sent b g now s d x =
    (Violates b g d
      × (e : Error) × (x.0 ≡ raised e)
      × (x.1.adapter ≡ without_generation s.adapter)
      × (x.1.sink ≡ (request_source_stop b g now s.sink).1))
    ⊎ ((e : Error) × ((f : Fault) → e ≢ value_error f) × (d ≡ raised e) × (x ≡ (raised e, s)))
    ⊎ ((c : MotionCandidate) × (d ≡ ok c)
        × (c.generation ≢ g)
        × (x ≡ (ok (not_written stale_generation (some b.mode)), s)))
    ⊎ ((c : MotionCandidate) × (d ≡ ok c)
        × (c.generation ≡ g)
        × (c.source ≡ b.source)
        × (c.mode ≡ b.mode)
        × (x.0 ≡ (submit_candidate c now s.sink).0)
        × (x.1 ≡ record s { sink = (submit_candidate c now s.sink).1 }))

mode_eq-eq : (m n : ControlMode) → mode_eq m n ≡ true → m ≡ n
mode_eq-eq manual_action manual_action h = refl
mode_eq-eq velocity_reference velocity_reference h = refl
mode_eq-eq manual_action velocity_reference h = absurd (cc)
mode_eq-eq velocity_reference manual_action h = absurd (cc)

mode_eq_refl : (m n : ControlMode) → m ≡ n → mode_eq m n ≡ true
mode_eq_refl manual_action n h = rw (← h) refl
mode_eq_refl velocity_reference n h = rw (← h) refl

module _ (b : PolicyBinding) (p : Payload) (now : ℕ) (s : Seat) (g : ℕ) where
  revoked :
      (d : Outcome MotionCandidate) (x : Error)
      → Violates b g d
      → Candidate.send b p now s ≡ revoke b g now x s
      → Sent b g now s d (Candidate.send b p now s)
  unfolding revoke
  revoked d x v e = rw e (elim (Outcome-cases (request_source_stop b g now s.sink).0) [
    | inl (u, q) ↦ inl (v, x, rw q refl, refl, refl)
    | inr (y, q) ↦ inl (v, y, rw q refl, refl, refl)
  ])

  candidate-Sent :
      (c : MotionCandidate)
      → s.adapter.generation ≡ some g
      → decode_motion_candidate p ≡ ok c
      → Sent b g now s (ok c) (Candidate.send b p now s)
  unfolding Candidate.send
  candidate-Sent c a h = elim (Bool-cases (c.generation == g)) [
    | inr i ↦ inr (inr (inl (c, refl, (λ q. absurd (ground arith)), ground arith)))
    | inl i ↦ elim (Bool-cases (str_eq c.source b.source)) [
      | inr j ↦
          revoked (ok c) (value_error source_mismatch)
            (ground arith, inl (λ q. absurd (ground (arith, str_eq_iff c.source b.source))))
            (ground arith)
      | inl j ↦ elim (Bool-cases (mode_eq c.mode b.mode)) [
        | inr k ↦
            revoked (ok c) (value_error mode_mismatch)
              (ground arith, inr (λ q. absurd (ground (arith, mode_eq_refl c.mode b.mode q))))
              (ground arith)
        | inl k ↦ inr (
            inr (
              inr (
                c,
                refl,
                ground arith,
                (str_eq_iff c.source b.source).0 j,
                mode_eq-eq c.mode b.mode k,
                ground arith,
                ground arith,
              )))
      ]
    ]
  ]

  -- What one call of `send` does to an activated adapter of a worker and to its sink. A payload that
  -- is refused as a value, and a candidate of the activated generation for another source or mode,
  -- stop the source at the sink, forget the activation and raise. Any other exception changes
  -- nothing. A candidate of another generation, whatever its source and mode, changes nothing and
  -- is answered as stale, without a write. A candidate of the generation, the source and the mode of
  -- the activation is submitted to the sink, whose answer is the result, and the activation stays.
  pub candidate_send_lem :
      s.adapter.generation ≡ some g
      → Sent b g now s (decode_motion_candidate p) (Candidate.send b p now s)
  unfolding Candidate.send revoke
  candidate_send_lem a = elim (Outcome-cases (decode_motion_candidate p)) [
    | inl (c, h) ↦ rw h (candidate-Sent c a h)
    | inr (value_error f, h) ↦
        rw h (revoked (raised (value_error f)) (value_error f) tt (ground arith))
    | inr (runtime_error x, h) ↦
        inr (inl (runtime_error x, (λ f q. absurd (ground arith)), h, ground arith))
    | inr (os_error x, h) ↦ inr (inl (os_error x, (λ f q. absurd (ground arith)), h, ground arith))
    | inr (overflow_error x, h) ↦
        inr (inl (overflow_error x, (λ f q. absurd (ground arith)), h, ground arith))
    | inr (type_error x, h) ↦
        inr (inl (type_error x, (λ f q. absurd (ground arith)), h, ground arith))
    | inr (key_error x, h) ↦
        inr (inl (key_error x, (λ f q. absurd (ground arith)), h, ground arith))
    | inr (index_error x, h) ↦
        inr (inl (index_error x, (λ f q. absurd (ground arith)), h, ground arith))
    | inr (zero_division_error x, h) ↦
        inr (inl (zero_division_error x, (λ f q. absurd (ground arith)), h, ground arith))
  ]
