-- ===== src/Trace/Switches.antt =====
-- The context switches that `summarize_trace` of capture/parse_trace.py counts.
use k8labs.Base.{ℕ, ◌+◌, ◌≡◌, refl, inl, inr, Bool, true, false, ℤ, Option, none, some, List, []}
use k8labs.Base.{◌∷◌}
use k8labs.Base.{arith, ◌==◌, comparable_nat, contains, if◌then◌else◌, comparable_text}
use k8labs.Base.{Bool-cases, ◌&&◌, ◌∙◌}
use k8labs.Base.Dict
use k8labs.Base.Dict.{Dict}
use k8labs.Trace.{TraceEvent, State, initial, related, step, process, sort_by_time, count_of}
use k8labs.Trace.{insert_by_time, summarize_trace, switch_in, switch_out, wake, sample, throttle}
use k8labs.Trace.{switch_in_pid, switch_out_pid, target_from_wakeup, wakeup_events}
use k8labs.Trace.{throttle_or_skip, runtime_step}

count_of-insert :
    (d : Dict ℕ ℕ) (p q n : ℕ)
    → count_of (Dict.insert q n d) p ≡ (if q == p then n else count_of d p)
count_of-insert d p q n = ground (arith, Dict.lookup-insert {K = ℕ} {V = ℕ} p q n d)

count_of-increment :
    (d : Dict ℕ ℕ) (p q : ℕ)
    → count_of (Dict.insert q (count_of d q + 1) d) p
      ≡ (if q == p then count_of d p + 1 else count_of d p)
count_of-increment d p q = elim (Bool-cases (q == p)) [
  | inl same ↦ let e : q ≡ p = ground arith in rw (count_of-insert, same) (rw e)
  | inr other ↦ rw (count_of-insert, other)
]

module _ (targets : List ℕ) (p : ℕ) where
  abbrev is_pid : Option ℕ → Bool
  is_pid none = false
  is_pid (some q) = q == p

  -- Whether an event switches the process `p` in.
  abbrev pub switches_in : TraceEvent → Bool
  switches_in e = e.event == "sched_switch" && is_pid (switch_in_pid targets e)

  -- How many events of a trace do.
  abbrev pub switch_ins : List TraceEvent → ℕ
  switch_ins [] = 0
  switch_ins (e ∷ es) = let rest = switch_ins es in if switches_in e then rest + 1 else rest

  switch_in-count :
      (q : Option ℕ) (now : ℕ) (s : State)
      → count_of (switch_in targets q now s).switches p
        ≡ (if is_pid q then count_of s.switches p + 1 else count_of s.switches p)
  unfolding switch_in
  switch_in-count none now s = refl
  switch_in-count (some q) now s = count_of-increment s.switches p q

  switch_out-switches :
      (q : Option ℕ) (now : ℕ) (s : State) → (switch_out targets q now s).switches ≡ s.switches
  unfolding switch_out
  switch_out-switches none now s = refl
  switch_out-switches (some q) now s = refl

  wake-switches :
      (q : Option ℕ) (e : TraceEvent) (s : State) → (wake targets q e s).switches ≡ s.switches
  unfolding wake
  wake-switches none e s = refl
  wake-switches (some q) e s = refl

  throttle-switches :
      (e : TraceEvent) (s : State) → (throttle_or_skip targets e s).switches ≡ s.switches
  unfolding throttle
  throttle-switches e s = ground arith

  runtime-switches :
      (runtime : Option ℤ) (e : TraceEvent) (s : State)
      → (runtime_step targets runtime e s).switches ≡ s.switches
  unfolding sample throttle
  runtime-switches runtime e s = ground arith

  -- A switch that brings in a requested process is an event related to the request.
  switches_in-related : (e : TraceEvent) → switches_in e ≡ true → related targets e ≡ true
  unfolding switch_in_pid related
  switches_in-related e h = ground arith

  switch-not-wakeup :
      (e : TraceEvent) → (e.event == "sched_switch") ≡ true → contains wakeup_events e.event ≡ false
  switch-not-wakeup e h = let same = comparable_text.same_iff.0 h in rw same

  step-count :
      (s : State) (e : TraceEvent)
      → count_of (step targets s e).switches p
        ≡ (if switches_in e then count_of s.switches p + 1 else count_of s.switches p)
  unfolding step
  step-count s e = elim (Bool-cases (related targets e)) [
    | inr other ↦
        let no_switch : switches_in e ≡ false = ground (arith, switches_in-related e) in
        rw (other, no_switch)
    | inl mine ↦ elim (Bool-cases (e.event == "sched_switch")) [
      | inl switch ↦
          let now = e.ts_ns in
          let out = switch_out targets (switch_out_pid targets e) now s in
          rw (mine, switch-not-wakeup e switch, switch)
            (switch_in-count (switch_in_pid targets e) now out
              ∙ rw (switch_out-switches (switch_out_pid targets e) now s))
      | inr other ↦ elim (Bool-cases (contains wakeup_events e.event)) [
        | inl woken ↦
            rw (mine, other, woken) (rw (wake-switches (target_from_wakeup targets e) e s))
        | inr asleep ↦ elim (Bool-cases (e.event == "sched_stat_runtime")) [
          | inl stat ↦ rw (mine, asleep, other, stat) (rw (runtime-switches e.runtime_ns e s))
          | inr rest ↦ rw (mine, asleep, other, rest) (rw (throttle-switches e s))
        ]
      ]
    ]
  ]

  process-count :
      (s : State) (es : List TraceEvent)
      → count_of (process targets s es).switches p ≡ count_of s.switches p + switch_ins es
  unfolding process
  process-count s [] = omega arith
  process-count s (e ∷ es) = ground (arith, process-count (step targets s e) es, step-count s e)

  insert_by_time-count :
      (e : TraceEvent) (es : List TraceEvent)
      → switch_ins (insert_by_time e es) ≡ switch_ins (e ∷ es)
  unfolding insert_by_time
  insert_by_time-count e [] = refl
  insert_by_time-count e (f ∷ fs) = ground (arith, insert_by_time-count e fs)

  sort_by_time-count : (es : List TraceEvent) → switch_ins (sort_by_time es) ≡ switch_ins es
  unfolding sort_by_time
  sort_by_time-count [] = refl
  sort_by_time-count (e ∷ es) =
      insert_by_time-count e (sort_by_time es) ∙ rw (sort_by_time-count es)

  -- The context switches that are reported for a process are the events that switch it in.
  pub summarize_trace-count :
      (events : List TraceEvent)
      → count_of (summarize_trace events targets).switches p ≡ switch_ins events
  unfolding summarize_trace Dict.lookup
  summarize_trace-count events =
      process-count initial (sort_by_time events) ∙ omega (arith, sort_by_time-count events)
