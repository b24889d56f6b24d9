-- ===== src/Prelude/Fault.antt =====
-- The exceptions that the modelled methods raise, one constructor for each message of the source.
use mathlib.Core.Path.{◌≡◌, refl}
use mathlib.Core.Logic.{◌⊎◌, inl, inr}

pub data Fault : Type 0 where
  empty_source candidate_generation candidate_created candidate_valid_until : Fault
  candidate_validity chunk_mode chunk_length chunk_item chunk_head : Fault
  ack_action ack_generation ack_unawaited ack_predates ack_not_pending ack_mode : Fault
  latency_generation latency_predates latency_stale latency_inactive : Fault
  binding_missing target_missing : Fault
  uint32_range manual_range action_not_finite : Fault
  short_write write_failed flush_failed : Fault
  sink_not_initialized sink_initialized sink_disarmed sink_faulted telemetry_unavailable : Fault
  zero_without_sequence action_without_sequence revocation_without_zero : Fault
  measurement_inconsistent target_evidence_incomplete intervals_not_monotonic runtime_id_text :
      Fault
  packet_size packet_json packet_fields packet_version packet_type packet_order : Fault
  packet_integer packet_range packet_sequence packet_future packet_expired : Fault
  packet_action packet_number number_overflow : Fault
  payload_size payload_json payload_fields payload_schema payload_order payload_text : Fault
  payload_integer payload_range payload_mode payload_action payload_chunk payload_number : Fault
  rl_not_activated worker_not_activated source_mismatch mode_mismatch : Fault
  core_disarmed lease_range lease_expired deadzone_component deadzone_axes : Fault
  positive_integer step_budget budget_changed : Fault
  missing_key missing_index unhashable : Fault
  safe_identifier blank_text integer_bounds number_finite number_sign sha256_text : Fault
  plan_fields plan_schema plan_profile validation_status plan_sequence plan_groups : Fault
  plan_default_group plan_trajectories artifact_fields artifact_phase artifact_path : Fault
  template_fields template_scope point_shape waypoint_list catalog_scope catalog_points : Fault
  artifact_mismatch template_json plan_not_validated : Fault
  cycle_active cycle_inactive group_not_planned point_not_in_group zero_division : Fault
  request_fields request_schema command_unknown max_steps_range status_value request_json : Fault
  worker_not_ready rl_busy steps_missing executor_missing response_fields frame_size : Fault
  frame_ended socket_timeout : Fault
  edge_cycle_active edge_cycle_inactive cycle_id_text trajectory_mapping dump_not_awaited : Fault
  unsupported_directive dispatch_failed dispatch_and_disarm_failed driver_failed : Fault

-- The classes of exception that a handler tells apart.
pub data Error : Type 0 where
  value_error : Fault → Error
  runtime_error : Fault → Error
  os_error : Fault → Error
  overflow_error : Fault → Error
  type_error : Fault → Error
  key_error : Fault → Error
  index_error : Fault → Error
  zero_division_error : Fault → Error

-- What a call comes back with.
pub data Outcome {ℓ} (A : Type ℓ) : Type ℓ where
  ok : A → Outcome A
  raised : Error → Outcome A

module _ {ℓ} {A : Type ℓ} where
  pub Outcome-cases : (o : Outcome A) → ((a : A) × (o ≡ ok a)) ⊎ ((e : Error) × (o ≡ raised e))
  Outcome-cases (ok a) = inl (a, refl)
  Outcome-cases (raised e) = inr (e, refl)
