-- ===== src/Lib.antt =====
-- Verification library of the resident Orin runtime: the one process that owns the serial port of
-- the STM32 and decides whose command reaches the machine.
--
-- The parts, from the inside out, with their sources from the repository's root.
--   * Motion: edge_runtime/resident_motion.py. The two control modes, actions on four axes,
--     bindings of a source to a mode, and typed candidates. Motion/Authority is
--     `ResidentMotionAuthority`: the generation, the phase of the handoff and the two bindings, with
--     `request_handoff`, `request_stop`, `pending_zero`, `acknowledge_zero`,
--     `record_handoff_latency` and `route`. Its children prove what the authority keeps
--     (Coherence), what it routes (Routing), and how a switch of sources goes (Calls, Handoff).
--   * Commands: edge_runtime/resident_commands.py. `Stm32ResidentCommandEncoder`: the two schemas
--     of the firmware under one sequence number.
--   * Sink: edge_runtime/resident_sink.py. `ResidentCommandSink`: the serial port, the encoder, the
--     authority, the latest telemetry, and what is awaited. Sink/Writes has the private methods
--     that write, Sink/Requests the handoff, stop and disarm, Sink/Observe the telemetry,
--     Sink/Submit `submit_candidate` and `tick`. The modules States beside them name the states
--     that each operation can lead to; Sink/Consistency is the invariant, Sink/Wire what the port is
--     handed, Sink/History any sequence of calls.
--   * Json, Protocol: edge_runtime/resident_protocol.py. What `json.loads` gives,
--     `decode_motion_candidate`, and `encode_motion_candidate` (Protocol/Encode).
--   * Ingress: edge_runtime/resident_ingress.py. The adapters of the RL runners (Ingress/Velocity)
--     and of typed workers such as ACT (Ingress/Candidate), with what they let through
--     (Ingress/Guards, Ingress/Candidates).
--   * Core: edge_runtime/resident_core.py. `ResidentMotionCore`: the sink behind both adapters, the
--     ACT segment (Core/Segment), the mission lease and the terminal disarm (Core/Control).
--     Core/Calls reduces each of its methods to calls on the sink, Core/Lease is about the lease,
--     Core/Budget about the steps of a segment.
--   * FixedCycle: edge_runtime/resident_fixed_cycle.py. The plan of a mission that is read from JSON
--     (FixedCycle/Plan, Plan/Mapping), `ResidentFixedCycleStateMachine` with the stages of a cycle
--     (FixedCycle/Machine, and Machine/Results for `record_child_result`),
--     `ResidentFixedCycleCoordinator` over a driver that may raise (FixedCycle/Coordinator), and
--     the templates of trajectories with the registry that is loaded from a catalog or a manifest
--     (FixedCycle/Templates). Values, Dict and Ensures are the checks of Python values they share.
--   * ControlPlane: edge_runtime/resident_control.py. The requests and the status, what
--     `_serve_one` does to the motion core (ControlPlane/Server), the response as JSON
--     (ControlPlane/Encode), the client's `_validate_response` (ControlPlane/Client), and the frames
--     of the socket (ControlPlane/Frames).
--   * EdgeCycle: edge_runtime/cycle.py. `EdgeExcavationCycle`, the cycle of the older topology, with
--     its legal moves (EdgeCycle/Moves) and its sequences of calls (EdgeCycle/History).
--   * Prelude: Boolean tests, texts, floats, faults, and the methods that change a state and may
--     raise (Prelude/Proc), which all parts share.
--
-- How the code is read. A method is a function from the state to its outcome, a value or the error
-- that it raises, and to the state that it leaves, also where it raises. Its `with self._lock` block
-- is one step, so a history is any sequence of calls; the lock, the condition that every method
-- runs whole, is assumed. Times are arguments, the readings of the clock that the call would take.
-- Integers that the source checks to be nonnegative are natural numbers, so that check and the one
-- against other types hold by typing; upper bounds and wrap-around are written out. A float is NaN,
-- an infinity or an integer multiple of 2 ^ -1074; both zeros of a double are the one zero, as they
-- are equal in the source. Latencies are kept in nanoseconds, without the source's division.
-- Messages of errors are constants. `serial.write` and `serial.flush` are an oracle: for each
-- attempt it says whether the write completes, is short, or raises in either call; nothing is
-- assumed of it. A frame is the object that the source dumps to a line of JSON. A payload is its
-- size with the value of its text, if it is strict JSON; the length of what `json.dumps` writes is
-- an argument. Consumers of audit events and handoff samples do not raise, as the source contains
-- what they raise.
--
-- What a driver of the fixed cycle answers, what `recv` of a socket gives and in which pieces, and
-- what the probes of the control server answer are oracles too. Reading a file, its SHA-256 digest
-- and `json.loads` are arguments of the loaders of the fixed cycle.
-- The calls that a request makes on the core come without a call of another thread in between; what
-- is proved of any sequence of calls covers the other orders.
--
-- Recursion is structural but for two fuels. That of `bit_length` in Json is 1100 binary digits,
-- past the 1024 of the largest double: an integer with more digits overflows. That of the loop of
-- `_receive_exact` is one more than the bytes that are wanted: each round that goes on receives at
-- least one of them.
--
-- Not modelled: the logging of samples and audits (edge_runtime/resident_action_audit.py), the
-- check of the runtime's identifier, the files and threads of the control server, and the other
-- parts of the runtime: state publication, the local data link, the driver of the fixed cycle over
-- the core and its own control server, the coordinator of the older topology, the Follow behaviour
-- with its kinematics and inference, and the sender of the machine's state.
pub mod Prelude
pub mod Motion
pub mod Commands
pub mod Sink
pub mod Json
pub mod Protocol
pub mod Ingress
pub mod Core
pub mod FixedCycle
pub mod ControlPlane
pub mod EdgeCycle
