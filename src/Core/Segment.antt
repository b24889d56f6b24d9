-- ===== src/Core/Segment.antt =====
-- The progress of an ACT segment in edge_runtime/resident_core.py.
use excavator_orin_runtime.Prelude.{
  ℕ, ◌+◌, Bool, false, ◌&&◌, ◌||◌, Option, none, some, List, if◌then◌else◌, leb, ltb, ◌==◌, is_some,
  length, all,
}
use excavator_orin_runtime.Motion.{Action}
use excavator_orin_runtime.Sink.{WriteResult}
use excavator_orin_runtime.Core.{
  DeadzoneContract, within_deadzone, Tracker, step_budget, deadzone_chunk, CompletionReason,
}

-- `segment.max_steps is not None and completed_steps >= segment.max_steps`.
abbrev pub budget_due : Option ℕ → ℕ → Bool
budget_due none completed = false
budget_due (some budget) completed = leb budget completed

abbrev budget_left : Option ℕ → ℕ → Bool
budget_left none completed = false
budget_left (some budget) completed = ltb completed budget

abbrev chunk_in_deadzone : Option (List Action) → Option DeadzoneContract → ℕ → Bool
chunk_in_deadzone none contract steps = false
chunk_in_deadzone (some chunk) contract steps =
    length chunk == steps && all (λ a. within_deadzone a contract) chunk

unfoldable pub deadzone_chunk_due :
    Tracker → Option (List Action) → Option DeadzoneContract → ℕ → ℕ → Bool
deadzone_chunk_due t chunk contract chunk_steps min_steps =
    is_some contract
    && (budget_left t.max_steps (t.completed_steps + 1)
        && (leb min_steps t.completed_steps && chunk_in_deadzone chunk contract chunk_steps))

abbrev when {ℓ} : {A : Type ℓ} → Bool → A → Option A
when b a = if b then some a else none

abbrev reason_of : Bool → Bool → Option CompletionReason
reason_of budget early = if budget then some step_budget else when early deadzone_chunk

-- `_advance_act_segment`, the new tracker; the update's other field is `within_deadzone` of the
-- result's action.
unfoldable pub advance :
    Tracker → WriteResult → Option (List Action) → Option DeadzoneContract → ℕ → ℕ → Tracker
advance t r chunk contract chunk_steps min_steps =
    let still = within_deadzone r.effective_action contract in
    let budget = budget_due t.max_steps (t.completed_steps + 1) in
    let early = deadzone_chunk_due t chunk contract chunk_steps min_steps in
    record t {
      completed_steps = t.completed_steps + 1;
      final_seq = if budget || early then r.command_seq else none;
      final_action = when (budget || early) r.effective_action;
      handoff_due = budget || early;
      last_effective_step = if still then t.last_effective_step else some (t.completed_steps + 1);
      trailing_deadzone_steps = if still then t.trailing_deadzone_steps + 1 else 0;
      completion_reason = reason_of budget early;
    }
