-- ===== src/Trace/Steps.antt =====
-- Each step of the loop in `summarize_trace` (capture/parse_trace.py) keeps its invariant.
use k8labs.Base.{ℕ, ◌+◌, ◌≤◌, ◌≡◌, inl, inr, true, Option, none, some, List}
use k8labs.Base.{
  [], ◌∷◌, arith, leb, ◌==◌, comparable_nat, contains, if◌then◌else◌, comparable_text,
}
use k8labs.Base.{All, All-append, All-map, Bool-cases, Option-cases, ℤ}
use k8labs.Base.Dict
use k8labs.Base.Dict.{Dict}
use k8labs.Trace.{TraceEvent, Delay, State, initial, related, step}
use k8labs.Trace.{switch_in, switch_out, wake, sample, throttle}
use k8labs.Trace.{switch_in_pid, switch_out_pid, subject, target_from_wakeup, close_delay}
use k8labs.Trace.{wakeup_events, throttle_or_skip, runtime_step, throttle_names}
use k8labs.Trace.Intervals.{Track, Track-initial, Track-later, Track-insert}
use k8labs.Trace.Intervals.{Track-close}

abbrev pub DelayOk : List ℕ → ℕ → Delay → Type 0
DelayOk targets now x =
    (contains targets x.pid ≡ true)
    × (x.wakeup_ts_ns + x.delay_ns ≡ x.switch_ts_ns)
    × (x.switch_ts_ns ≤ now)

-- The loop's invariant at a time `now`.
pub record IsSound (targets : List ℕ) (now : ℕ) (s : State) : Type 0 where
  pub running : Track targets now s.on_cpu s.on_cpu_start
  pub waiting : Track targets now s.off_cpu s.off_cpu_start
  pub delays : All (DelayOk targets now) s.delays
  pub wakeups : (p : ℕ) (e : TraceEvent) → Dict.lookup p s.pending_wakeups ≡ some e → e.ts_ns ≤ now

abbrev pub TimeOrdered : ℕ → List TraceEvent → Type 0
TimeOrdered now [] = Unit
TimeOrdered now (e ∷ es) = (now ≤ e.ts_ns) × TimeOrdered e.ts_ns es

pub initial-IsSound : (targets : List ℕ) → IsSound targets 0 initial
unfolding Dict.lookup
initial-IsSound targets = record {
  running = Track-initial targets;
  waiting = Track-initial targets;
  delays = tt;
  wakeups = λ p e h. absurd (cc);
}

module _ (targets : List ℕ) where
  abbrev Requested : Option ℕ → Type 0
  Requested none = Unit
  Requested (some p) = contains targets p ≡ true

  switch_in_pid-Requested : (e : TraceEvent) → Requested (switch_in_pid targets e)
  unfolding switch_in_pid
  switch_in_pid-Requested e = ground arith

  switch_out_pid-Requested : (e : TraceEvent) → Requested (switch_out_pid targets e)
  unfolding switch_out_pid
  switch_out_pid-Requested e = ground arith

  module _ (now : ℕ) (s : State) where
    IsSound-later : (now' : ℕ) → now ≤ now' → IsSound targets now s → IsSound targets now' s
    IsSound-later now' h k = record {
      running = Track-later targets now s.on_cpu s.on_cpu_start now' h k.running;
      waiting = Track-later targets now s.off_cpu s.off_cpu_start now' h k.waiting;
      delays = All-map _ _ s.delays (λ x d. (d.0, d.1, omega arith)) k.delays;
      wakeups = λ p e f. let le = k.wakeups p e f in omega arith;
    }

    switch_out-IsSound :
        (p : Option ℕ)
        → Requested p
        → IsSound targets now s
        → IsSound targets now (switch_out targets p now s)
    unfolding switch_out
    switch_out-IsSound none r k = k
    switch_out-IsSound (some p) r k = record {
      running = Track-close targets now s.on_cpu s.on_cpu_start p r k.running;
      waiting = Track-insert targets now s.off_cpu s.off_cpu_start p k.waiting;
      delays = k.delays;
      wakeups = k.wakeups;
    }

    close_delay-ok :
        (p : ℕ)
        → contains targets p ≡ true
        → IsSound targets now s
        → All
            (DelayOk targets now)
            (close_delay targets p (Dict.lookup p s.pending_wakeups) now s.delays)
    close_delay-ok p r k = elim (Option-cases (Dict.lookup p s.pending_wakeups)) [
      | inl absent ↦ rw absent k.delays
      | inr (e, found) ↦
          let le = k.wakeups p e found in
          let ok : leb e.ts_ns now ≡ true = ground arith in
          rw (found, ok) (All-append _ s.delays _ k.delays ((r, omega arith, omega arith), tt))
    ]

    erase-wakeups :
        (p : ℕ)
        → IsSound targets now s
        → (q : ℕ) (e : TraceEvent) → Dict.lookup q (Dict.erase p s.pending_wakeups) ≡ some e
        → e.ts_ns ≤ now
    erase-wakeups p k q e h =
        let h' : (if p == q then none else Dict.lookup q s.pending_wakeups) ≡ some e =
          rw Dict.lookup-erase at h in
        k.wakeups q e (ground arith)

    switch_in-IsSound :
        (p : Option ℕ)
        → Requested p
        → IsSound targets now s
        → IsSound targets now (switch_in targets p now s)
    unfolding switch_in
    switch_in-IsSound none r k = k
    switch_in-IsSound (some p) r k = record {
      running = Track-insert targets now s.on_cpu s.on_cpu_start p k.running;
      waiting = Track-close targets now s.off_cpu s.off_cpu_start p r k.waiting;
      delays = close_delay-ok p r k;
      wakeups = erase-wakeups p k;
    }

    wake-IsSound :
        (p : Option ℕ) (e : TraceEvent)
        → e.ts_ns ≤ now
        → IsSound targets now s
        → IsSound targets now (wake targets p e s)
    unfolding wake
    wake-IsSound none e h k = k
    wake-IsSound (some p) e h k = record {
      running = k.running;
      waiting = k.waiting;
      delays = k.delays;
      wakeups = λ q f found. wakeups q f (rw Dict.lookup-insert at found);
    }
      where
        wakeups :
            (q : ℕ) (f : TraceEvent)
            → (if p == q then some e else Dict.lookup q s.pending_wakeups) ≡ some f
            → f.ts_ns ≤ now
        wakeups q f found = elim (Bool-cases (p == q)) [
          | inl same ↦ ground arith
          | inr other ↦ k.wakeups q f (ground arith)
        ]

    sample-IsSound :
        (p : Option ℕ) (t : ℕ) (r : ℤ)
        → IsSound targets now s
        → IsSound targets now (sample targets p t r s)
    unfolding sample
    sample-IsSound none t r k = k
    sample-IsSound (some p) t r k = record {
      running = k.running;
      waiting = k.waiting;
      delays = k.delays;
      wakeups = k.wakeups;
    }

    throttle-IsSound :
        (p : Option ℕ) (e : TraceEvent)
        → IsSound targets now s
        → IsSound targets now (throttle targets p e s)
    unfolding throttle
    throttle-IsSound none e k = k
    throttle-IsSound (some p) e k = record {
      running = k.running;
      waiting = k.waiting;
      delays = k.delays;
      wakeups = k.wakeups;
    }

    throttle_or_skip-IsSound :
        (e : TraceEvent)
        → IsSound targets now s
        → IsSound targets now (throttle_or_skip targets e s)
    throttle_or_skip-IsSound e k = elim (Bool-cases (contains throttle_names e.event)) [
      | inl yes' ↦ rw yes' (throttle-IsSound (subject targets e) e k)
      | inr no' ↦ rw no' k
    ]

    runtime-IsSound :
        (runtime : Option ℤ) (e : TraceEvent)
        → IsSound targets now s
        → IsSound targets now (runtime_step targets runtime e s)
    runtime-IsSound none e k = throttle_or_skip-IsSound e k
    runtime-IsSound (some r) e k = sample-IsSound (subject targets e) e.ts_ns r k

  -- One event, no earlier than the ones before it, keeps the invariant at its time.
  pub step-IsSound :
      (now : ℕ) (s : State) (e : TraceEvent)
      → now ≤ e.ts_ns
      → IsSound targets now s
      → IsSound targets e.ts_ns (step targets s e)
  unfolding step
  step-IsSound now s e h k =
      let t = e.ts_ns in
      let k' = IsSound-later now s t h k in
      elim (Bool-cases (related targets e)) [
        | inr other ↦ rw other k'
        | inl mine ↦ elim (Bool-cases (contains wakeup_events e.event)) [
          | inl woken ↦
              rw (mine, woken) (wake-IsSound t s (target_from_wakeup targets e) e (omega arith) k')
          | inr asleep ↦ elim (Bool-cases (e.event == "sched_switch")) [
            | inl switch ↦
                let out = switch_out_pid targets e in
                rw (mine, asleep, switch)
                  (switch_in-IsSound t (switch_out targets out t s) (switch_in_pid targets e)
                    (switch_in_pid-Requested e)
                    (switch_out-IsSound t s out (switch_out_pid-Requested e) k'))
            | inr stay ↦ elim (Bool-cases (e.event == "sched_stat_runtime")) [
              | inl stat ↦ rw (mine, asleep, stay, stat) (runtime-IsSound t s e.runtime_ns e k')
              | inr rest ↦ rw (mine, asleep, stay, rest) (throttle_or_skip-IsSound t s e k')
            ]
          ]
        ]
      ]
