-- ===== src/Sink/History/Safety.antt =====
-- What any history of calls on edge_runtime/resident_sink.py's sink puts on the wire.
use excavator_orin_runtime.Prelude.{◌≡◌, true, arith}
use excavator_orin_runtime.Motion.{zero_action}
use excavator_orin_runtime.Commands.{Frame}
use excavator_orin_runtime.Commands.Codec.{frame_action}
use excavator_orin_runtime.Sink.{Sink, Telemetry}
use excavator_orin_runtime.Sink.Requests.{initialize}
use excavator_orin_runtime.Sink.Wire.{Extends, Extends-refl}
use excavator_orin_runtime.Sink.Wire.Requests.{
  request_handoff-Extends, request_stop-Extends, request_source_stop-Extends,
  terminal_disarm-Extends,
}
use excavator_orin_runtime.Sink.Wire.Observe.{
  observe_telemetry-Extends, invalidate_telemetry-Extends,
}
use excavator_orin_runtime.Sink.Wire.Submit.{ZeroOrLicensed, submit_candidate-Extends, tick-Extends}
use excavator_orin_runtime.Sink.History.{
  Method, initialized, observed, invalidated, handed_off, stopped, ticked, disarmed, source_stopped,
  submitted, step,
}

abbrev IsZeroFrame : Frame → Type 0
IsZeroFrame f = frame_action f ≡ zero_action

-- What a method may put on the wire: a candidate's submission its licensed action, any other
-- method nothing but zeros.
abbrev pub Permitted : Method → Sink → Frame → Type 0
Permitted (submitted c now) s f = ZeroOrLicensed s c now f
Permitted _ s f = frame_action f ≡ zero_action

initialize_again : (f : Telemetry) (s : Sink) → s.synchronized ≡ true → (initialize f s).1 ≡ s
unfolding initialize
initialize_again f s i = ground arith

-- On a synchronized sink, each call adds to the wire frames that it is permitted, under
-- consecutive sequence numbers modulo 2 ^ 32 that start at the encoder's next one: only the
-- submission of a candidate writes anything but zeros, and then the candidate's own action while
-- it is admissible for the source in force, no acknowledgement is awaited, and the latest
-- telemetry is fresh and safe.
pub step-Permitted :
    (m : Method) (s : Sink) → s.synchronized ≡ true → Extends (Permitted m s) s (step m s)
unfolding step
step-Permitted (initialized f) s i = rw (initialize_again f s i) (Extends-refl IsZeroFrame s)
step-Permitted (observed f) s i = observe_telemetry-Extends IsZeroFrame (λ f z. z) f s
step-Permitted (invalidated now alive) s i =
    invalidate_telemetry-Extends IsZeroFrame (λ f z. z) now alive s
step-Permitted (handed_off b now) s i = request_handoff-Extends IsZeroFrame (λ f z. z) b now s
step-Permitted (stopped now) s i = request_stop-Extends IsZeroFrame (λ f z. z) now s
step-Permitted (ticked now) s i = tick-Extends IsZeroFrame (λ f z. z) now s
step-Permitted (disarmed now) s i = terminal_disarm-Extends IsZeroFrame (λ f z. z) now s
step-Permitted (source_stopped b generation now) s i =
    request_source_stop-Extends IsZeroFrame (λ f z. z) b generation now s
step-Permitted (submitted c now) s i = submit_candidate-Extends s c now
