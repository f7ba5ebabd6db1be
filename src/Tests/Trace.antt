-- ===== src/Tests/Trace.antt =====
-- A short scheduler trace, summarised as capture/parse_trace.py does.
use k8labs.Base.{ℕ, ◌≡◌, refl, none, some, List, [], ◌∷◌, pos, String, ℤ, Option}
use k8labs.Base.Dict
use k8labs.Trace.{TraceEvent, summarize_trace, sort_by_time, process, step, related, switch_in_pid}
use k8labs.Trace.{switch_out_pid, target_from_wakeup, switch_out, switch_in, wake, count_of}
use k8labs.Trace.Steps.{IsSound}
use k8labs.Trace.Loop.{summarize_trace-IsSound, related_events, summarize_trace-related}
use k8labs.Trace.Switches.{summarize_trace-count}

abbrev event : String → ℕ → ℕ → Option ℤ → TraceEvent
event name ts pid target = record {
  event = name;
  ts_ns = ts;
  pid = pid;
  target_pid = target;
  runtime_ns = none;
}

abbrev trace : List TraceEvent
trace =
    event "sched_switch" 30 7 (some (pos 3))
    ∷ event "sched_wakeup" 10 9 (some (pos 7))
    ∷ event "sched_switch" 20 4 (some (pos 7))
    ∷ event "sched_switch" 25 4 (some (pos 5))
    ∷ []

program : Unit {0}
unfolding summarize_trace sort_by_time process step related switch_in_pid switch_out_pid
    target_from_wakeup switch_out switch_in wake Dict.lookup Dict.insert Dict.erase
program = tt

-- Process 7 waited from 10 to 20, and ran from 20 to 30.
trace_runs :
    ((summarize_trace trace (7 ∷ [])).delays
      ≡ record { pid = 7; wakeup_ts_ns = 10; switch_ts_ns = 20; delay_ns = 10 } ∷ [])
    × ((summarize_trace trace (7 ∷ [])).on_cpu
        ≡ record { pid = 7; start_ts_ns = 20; end_ts_ns = 30; duration_ns = 10 } ∷ [])
unfolding program
trace_runs = (refl, refl)

summarize_trace-IsSound_example : IsSound (7 ∷ []) 30 (summarize_trace trace (7 ∷ []))
unfolding program
summarize_trace-IsSound_example = summarize_trace-IsSound trace (7 ∷ [])

summarize_trace-related_example :
    summarize_trace (related_events (7 ∷ []) trace) (7 ∷ []) ≡ summarize_trace trace (7 ∷ [])
summarize_trace-related_example = summarize_trace-related trace (7 ∷ [])

summarize_trace-count_example : count_of (summarize_trace trace (7 ∷ [])).switches 7 ≡ 1
unfolding switch_in_pid
summarize_trace-count_example = summarize_trace-count (7 ∷ []) 7 trace
