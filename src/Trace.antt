-- ===== src/Trace.antt =====
-- The scheduler-trace summary: `summarize_trace` and its helpers in
-- research/cpu-limits/capture/parse_trace.py. Times and process ids are not negative, as
-- `parse_trace_csv` makes sure; `target_pid` and `runtime_ns` may be.
pub mod Intervals
pub mod Steps
pub mod Loop
pub mod Switches
use k8labs.Base.{
  ℕ, ◌+◌, ◌-◌, String, Bool, true, false, not, ◌&&◌, ◌||◌, Option, none, some, ℤ, pos,
}
use k8labs.Base.{
  negsuc, List, [], ◌∷◌, ◌++◌, ltb, leb, ◌==◌, comparable_nat, comparable_text, contains,
}
use k8labs.Base.{if◌then◌else◌}
use k8labs.Base.Dict
use k8labs.Base.Dict.{Dict}

-- The fields that `summarize_trace` reads.
pub record TraceEvent : Type 0 where
  pub event : String
  pub ts_ns : ℕ
  pub pid : ℕ
  pub target_pid : Option ℤ
  pub runtime_ns : Option ℤ

pub record Delay : Type 0 where
  pub pid : ℕ
  pub wakeup_ts_ns : ℕ
  pub switch_ts_ns : ℕ
  pub delay_ns : ℕ

pub record Interval : Type 0 where
  pub pid : ℕ
  pub start_ts_ns : ℕ
  pub end_ts_ns : ℕ
  pub duration_ns : ℕ

pub record Throttle : Type 0 where
  pub pid : ℕ
  pub event : String
  pub ts_ns : ℕ

pub record RuntimeSample : Type 0 where
  pub pid : ℕ
  pub ts_ns : ℕ
  pub runtime_ns : ℤ

-- The local variables of the loop.
pub record State : Type 0 where
  pub delays : List Delay
  pub on_cpu : List Interval
  pub off_cpu : List Interval
  pub throttle_events : List Throttle
  pub runtime_samples : List RuntimeSample
  pub switches : Dict ℕ ℕ
  pub pending_wakeups : Dict ℕ TraceEvent
  pub on_cpu_start : Dict ℕ ℕ
  pub off_cpu_start : Dict ℕ ℕ

abbrev pub initial : State
initial = record {
  delays = [];
  on_cpu = [];
  off_cpu = [];
  throttle_events = [];
  runtime_samples = [];
  switches = [];
  pending_wakeups = [];
  on_cpu_start = [];
  off_cpu_start = [];
}

abbrev pub wakeup_events : List String
wakeup_events = "sched_wakeup" ∷ "sched_wakeup_new" ∷ []

abbrev pub throttle_names : List String
throttle_names = "throttle_cfs_rq" ∷ "throttle_cfs_rq_work" ∷ "unthrottle_cfs_rq" ∷ []

-- `switches[p] += 1` of a Counter, which reads an absent key as 0.
abbrev pub count_of : Dict ℕ ℕ → ℕ → ℕ
count_of d p = elim (Dict.lookup p d) [ none ↦ 0 | some n ↦ n ]

module _ (targets : List ℕ) where
  -- The process id that a target names, if it is among the requested ones.
  abbrev pub target_in : Option ℤ → Option ℕ
  target_in none = none
  target_in (some (negsuc n)) = none
  target_in (some (pos n)) = if contains targets n then some n else none

  abbrev pub is_some : Option ℕ → Bool
  is_some none = false
  is_some (some n) = true

  -- `event.pid`, if it is among the requested ones.
  abbrev pub pid_in : ℕ → Option ℕ
  pid_in p = if contains targets p then some p else none

  abbrev pub names : Option ℤ → ℕ → Bool
  names (some (pos n)) p = n == p
  names (some (negsuc n)) p = false
  names none p = false

  -- `_related`
  unfoldable pub related : TraceEvent → Bool
  related e = contains targets e.pid || is_some (target_in e.target_pid)

  -- `_target_from_wakeup`
  unfoldable pub target_from_wakeup : TraceEvent → Option ℕ
  target_from_wakeup e = elim (e.target_pid) [ none ↦ pid_in e.pid | some t ↦ target_in (some t) ]

  -- `_switch_in_pid`
  unfoldable pub switch_in_pid : TraceEvent → Option ℕ
  switch_in_pid e = elim (e.target_pid) [ none ↦ pid_in e.pid | some t ↦ target_in (some t) ]

  -- `_switch_out_pid`
  unfoldable pub switch_out_pid : TraceEvent → Option ℕ
  switch_out_pid e =
      if contains targets e.pid && not (names e.target_pid e.pid) then some e.pid else none

  -- `event.target_pid if event.target_pid in target_pids else event.pid`, kept if it is requested.
  unfoldable pub subject : TraceEvent → Option ℕ
  subject e = elim (target_in e.target_pid) [ none ↦ pid_in e.pid | some p ↦ some p ]

  -- An interval from `start` to `now`, appended if there is a start and it is not later.
  abbrev pub close : ℕ → Option ℕ → ℕ → List Interval → List Interval
  close p none now l = l
  close p (some start) now l =
      if leb start now
      then l
        ++ (record { pid = p; start_ts_ns = start; end_ts_ns = now; duration_ns = now - start }
            ∷ [])
      else l

  abbrev pub close_delay : ℕ → Option TraceEvent → ℕ → List Delay → List Delay
  close_delay p none now l = l
  close_delay p (some wakeup) now l =
      if leb wakeup.ts_ns now
      then l
        ++ (record {
          pid = p;
          wakeup_ts_ns = wakeup.ts_ns;
          switch_ts_ns = now;
          delay_ns = now - wakeup.ts_ns;
        }
            ∷ [])
      else l

  unfoldable pub switch_out : Option ℕ → ℕ → State → State
  switch_out none now s = s
  switch_out (some p) now s = record s {
    on_cpu = close p (Dict.lookup p s.on_cpu_start) now s.on_cpu;
    on_cpu_start = Dict.erase p s.on_cpu_start;
    off_cpu_start = Dict.insert p now s.off_cpu_start;
  }

  unfoldable pub switch_in : Option ℕ → ℕ → State → State
  switch_in none now s = s
  switch_in (some p) now s = record s {
    delays = close_delay p (Dict.lookup p s.pending_wakeups) now s.delays;
    pending_wakeups = Dict.erase p s.pending_wakeups;
    off_cpu = close p (Dict.lookup p s.off_cpu_start) now s.off_cpu;
    off_cpu_start = Dict.erase p s.off_cpu_start;
    on_cpu_start = Dict.insert p now s.on_cpu_start;
    switches = Dict.insert p (count_of s.switches p + 1) s.switches;
  }

  unfoldable pub wake : Option ℕ → TraceEvent → State → State
  wake none e s = s
  wake (some p) e s = record s { pending_wakeups = Dict.insert p e s.pending_wakeups }

  unfoldable pub sample : Option ℕ → ℕ → ℤ → State → State
  sample none now runtime s = s
  sample (some p) now runtime s = record s {
    runtime_samples =
        s.runtime_samples ++ (record { pid = p; ts_ns = now; runtime_ns = runtime } ∷ []);
  }

  unfoldable pub throttle : Option ℕ → TraceEvent → State → State
  throttle none e s = s
  throttle (some p) e s = record s {
    throttle_events =
        s.throttle_events ++ (record { pid = p; event = e.event; ts_ns = e.ts_ns } ∷ []);
  }

  -- The last test of the loop, which a runtime event with no runtime reaches too.
  abbrev pub throttle_or_skip : TraceEvent → State → State
  throttle_or_skip e s = if contains throttle_names e.event then throttle (subject e) e s else s

  -- A runtime event, which counts only with its runtime.
  abbrev pub runtime_step : Option ℤ → TraceEvent → State → State
  runtime_step none e s = throttle_or_skip e s
  runtime_step (some runtime) e s = sample (subject e) e.ts_ns runtime s

  -- The loop's body for one event.
  unfoldable pub step : State → TraceEvent → State
  step s e =
      if not (related e)
      then s
      else if contains wakeup_events e.event
      then wake (target_from_wakeup e) e s
      else if e.event == "sched_switch"
      then switch_in (switch_in_pid e) e.ts_ns (switch_out (switch_out_pid e) e.ts_ns s)
      else if e.event == "sched_stat_runtime"
      then runtime_step e.runtime_ns e s
      else throttle_or_skip e s

  unfoldable pub process : State → List TraceEvent → State
  process s [] = s
  process s (e ∷ es) = process (step s e) es

-- `sorted(events, key=lambda item: item.ts_ns)`, which is stable.
unfoldable pub insert_by_time : TraceEvent → List TraceEvent → List TraceEvent
insert_by_time e [] = e ∷ []
insert_by_time e (f ∷ fs) =
    let rest = insert_by_time e fs in if leb e.ts_ns f.ts_ns then e ∷ f ∷ fs else f ∷ rest

unfoldable pub sort_by_time : List TraceEvent → List TraceEvent
unfolding insert_by_time
sort_by_time [] = []
sort_by_time (e ∷ es) = insert_by_time e (sort_by_time es)

-- The summary is the loop's final state.
unfoldable pub summarize_trace : List TraceEvent → List ℕ → State
summarize_trace events targets = process targets initial (sort_by_time events)
