-- ===== src/FixedCycle/Coordinator.antt =====
-- edge_runtime/resident_fixed_cycle.py: `ResidentFixedCycleCoordinator`, which hands the directives
-- of the state machine to a driver. The driver is not part of the file: what its calls come back
-- with is a list of replies, and the calls made are kept with their answers, the latest first.
pub mod Closing
pub mod Missions
use excavator_orin_runtime.Prelude.{
  ℕ, String, Bool, true, false, not, Option, none, some, List, [], ◌∷◌, if◌then◌else◌, str_eq,
}
use excavator_orin_runtime.Prelude.Fault.{
  Error, Outcome, ok, raised, runtime_error, unsupported_directive, dispatch_failed,
  dispatch_and_disarm_failed,
}
use excavator_orin_runtime.Prelude.Proc.{
  Proc, return, raise, read, required, assign, ensure, within_part, ◌>>=◌, ◌>>◌,
}
use excavator_orin_runtime.Json.{Json}
use excavator_orin_runtime.FixedCycle.Plan.{Plan, TrajectoryArtifact}
use excavator_orin_runtime.FixedCycle.Machine.{Directive, Cycle, new_cycle}
use excavator_orin_runtime.FixedCycle.Machine as Machine
use excavator_orin_runtime.FixedCycle.Machine.Results as Results
use excavator_orin_runtime.FixedCycle.Machine.Results.{ChildResult}

-- The calls of `ResidentFixedCycleDriver`.
pub data DriverCall : Type 0 where
  start_follow : TrajectoryArtifact → DriverCall
  activate_act : ℕ → DriverCall
  start_fixed_action : String → DriverCall
  disarm : DriverCall

-- A call with its answer.
pub record Answered : Type 0 where
  pub call : DriverCall
  pub answer : Outcome (Unit {0})

pub record Coordinator : Type 0 where
  pub cycle : Cycle
  pub terminal_disarmed : Bool
  pub calls : List Answered
  pub replies : List (Outcome (Unit {0}))

-- `__init__`, with what the driver is going to answer.
unfoldable pub new_coordinator : Plan → List (Outcome (Unit {0})) → Coordinator
new_coordinator p replies = record {
  cycle = new_cycle p;
  terminal_disarmed = false;
  calls = [];
  replies = replies;
}

abbrev pub reply : List (Outcome (Unit {0})) → Outcome (Unit {0})
reply [] = ok tt
reply (r ∷ rs) = r

abbrev pub later_replies : List (Outcome (Unit {0})) → List (Outcome (Unit {0}))
later_replies [] = []
later_replies (r ∷ rs) = rs

-- A call of the driver.
abbrev pub called : DriverCall → Coordinator → Coordinator
called x c = record c {
  calls = record { call = x; answer = reply c.replies } ∷ c.calls;
  replies = later_replies c.replies;
}

pub drive : DriverCall → Proc Coordinator Unit
drive x c = (reply c.replies, called x c)

in_cycle : {A : Type 0} → Proc Cycle A → Proc Coordinator A
in_cycle = within_part (λ (c : Coordinator). c.cycle) (λ k c. record c { cycle = k })

-- `_terminal_disarm`.
pub terminal_disarm : Proc Coordinator Unit
unfolding drive
terminal_disarm c =
    if c.terminal_disarmed
    then return tt c
    else (do drive disarm; assign (λ (c : Coordinator). record c { terminal_disarmed = true })) c

-- `_dispatch_unchecked`.
pub dispatch_unchecked : Directive → Proc Coordinator Unit
unfolding drive
dispatch_unchecked d =
    if str_eq d.child "follow"
    then (do
      a ← required d.trajectory (runtime_error unsupported_directive)
      drive (start_follow a))
    else if str_eq d.child "act"
    then (do n ← required d.max_steps (runtime_error unsupported_directive); drive (activate_act n))
    else if str_eq d.child "fixed_action"
    then (do
      b ← required d.behavior (runtime_error unsupported_directive)
      drive (start_fixed_action b))
    else raise (runtime_error unsupported_directive)

-- `try: m; except Exception: handler`.
abbrev pub after_failure : {A : Type 0} → Proc Coordinator A → Outcome A → Proc Coordinator A
after_failure handler (ok a) c = (ok a, c)
after_failure handler (raised e) c = handler c

abbrev pub except : {A : Type 0} → Proc Coordinator A → Proc Coordinator A → Proc Coordinator A
except m handler c = let (r, c') = m c in after_failure handler r c'

-- What follows a failed dispatch.
pub abandon : Proc Coordinator Unit
unfolding in_cycle terminal_disarm
abandon = do
  in_cycle (Machine.fail "LOCAL_DISPATCH_FAILED")
  except terminal_disarm (raise (runtime_error dispatch_and_disarm_failed))
  raise (runtime_error dispatch_failed)

-- `_dispatch`.
pub dispatch : Directive → Proc Coordinator Unit
unfolding dispatch_unchecked abandon
dispatch d = except (dispatch_unchecked d) abandon

-- `start`.
unfoldable pub start :
    (run_id : String) (requested_cycles : Json) (first_dig_point_id dig_group_id : Option String)
    → Proc Coordinator Unit
unfolding in_cycle dispatch
start run_id requested_cycles first_dig_point_id dig_group_id = do
  assign (λ c. record c { terminal_disarmed = false })
  d ← in_cycle (Machine.start run_id requested_cycles first_dig_point_id dig_group_id)
  dispatch d

disarm_if_terminal : Proc Coordinator Unit
unfolding terminal_disarm
disarm_if_terminal c = if c.cycle.snapshot.terminal then terminal_disarm c else return tt c

-- What a directive, or none, leads to.
pub follow_up : Option Directive → Proc Coordinator Unit
unfolding dispatch disarm_if_terminal
follow_up (some d) = dispatch d
follow_up none = disarm_if_terminal

-- `record_child_result`.
unfoldable pub record_child_result : ChildResult → Proc Coordinator Unit
unfolding in_cycle follow_up
record_child_result r = do d ← in_cycle (Results.record_child_result r); follow_up d

-- `cancel` and `fail`: the disarm comes first.
unfoldable pub cancel : Proc Coordinator Unit
unfolding terminal_disarm in_cycle
cancel = do terminal_disarm; in_cycle (Machine.cancel "CANCELLED")

unfoldable pub fail : String → Proc Coordinator Unit
unfolding terminal_disarm in_cycle
fail reason = do terminal_disarm; in_cycle (Machine.fail reason)
