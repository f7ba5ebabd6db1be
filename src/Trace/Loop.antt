-- ===== src/Trace/Loop.antt =====
-- What `summarize_trace` of capture/parse_trace.py guarantees of its result.
use k8labs.Base.{ℕ, ◌≤◌, ◌≡◌, refl, inl, inr, true, false, List, [], ◌∷◌, arith, leb, Bool-cases}
use k8labs.Base.{if◌then◌else◌}
use k8labs.Trace.{TraceEvent, State, initial, related, step, process, sort_by_time}
use k8labs.Trace.{insert_by_time, summarize_trace}
use k8labs.Trace.Steps.{IsSound, TimeOrdered, initial-IsSound, step-IsSound}

abbrev pub last_time : ℕ → List TraceEvent → ℕ
last_time now [] = now
last_time now (e ∷ es) = last_time e.ts_ns es

TimeOrdered-earlier :
    (now now' : ℕ) (es : List TraceEvent) → now ≤ now' → TimeOrdered now' es → TimeOrdered now es
TimeOrdered-earlier now now' [] h k = tt
TimeOrdered-earlier now now' (e ∷ es) h k = (omega arith, k.1)

insert_by_time-TimeOrdered :
    (now : ℕ) (e : TraceEvent) (es : List TraceEvent)
    → now ≤ e.ts_ns
    → TimeOrdered now es
    → TimeOrdered now (insert_by_time e es)
unfolding insert_by_time
insert_by_time-TimeOrdered now e [] h k = (h, tt)
insert_by_time-TimeOrdered now e (f ∷ fs) h k = elim (Bool-cases (leb e.ts_ns f.ts_ns)) [
  | inl before ↦ rw before (h, (ground arith, k.1))
  | inr after ↦ rw after (k.0, insert_by_time-TimeOrdered f.ts_ns e fs (ground arith) k.1)
]

pub sort_by_time-TimeOrdered : (es : List TraceEvent) → TimeOrdered 0 (sort_by_time es)
unfolding sort_by_time
sort_by_time-TimeOrdered [] = tt
sort_by_time-TimeOrdered (e ∷ es) =
    insert_by_time-TimeOrdered 0 e (sort_by_time es) (omega arith) (sort_by_time-TimeOrdered es)

process-IsSound :
    (targets : List ℕ) (now : ℕ) (s : State) (es : List TraceEvent)
    → TimeOrdered now es
    → IsSound targets now s
    → IsSound targets (last_time now es) (process targets s es)
unfolding process
process-IsSound targets now s [] h k = k
process-IsSound targets now s (e ∷ es) h k =
    process-IsSound targets e.ts_ns (step targets s e) es h.1 (step-IsSound targets now s e h.0 k)

-- Every trace, in any order, gives a sound summary: each interval and each delay belongs to a
-- requested process, lasts exactly from its start to its end, and ends no later than the last event;
-- and the on-CPU intervals of one process, and its off-CPU ones, follow one another without overlap.
pub summarize_trace-IsSound :
    (events : List TraceEvent) (targets : List ℕ)
    → IsSound targets (last_time 0 (sort_by_time events)) (summarize_trace events targets)
unfolding summarize_trace
summarize_trace-IsSound events targets =
    process-IsSound targets 0 initial (sort_by_time events) (sort_by_time-TimeOrdered events)
      (initial-IsSound targets)

-- The events that concern a requested process, in their order.
abbrev pub related_events : List ℕ → List TraceEvent → List TraceEvent
related_events targets [] = []
related_events targets (e ∷ es) =
    let rest = related_events targets es in if related targets e then e ∷ rest else rest

step_other :
    (targets : List ℕ) (s : State) (e : TraceEvent)
    → related targets e ≡ false
    → step targets s e ≡ s
unfolding step
step_other targets s e h = rw h

process-related :
    (targets : List ℕ) (s : State) (es : List TraceEvent)
    → process targets s (related_events targets es) ≡ process targets s es
unfolding process
process-related targets s [] = refl
process-related targets s (e ∷ es) = elim (Bool-cases (related targets e)) [
  | inl mine ↦ rw mine (process-related targets (step targets s e) es)
  | inr other ↦ rw (other, step_other targets s e other) (process-related targets s es)
]

related_events-TimeOrdered :
    (targets : List ℕ) (now : ℕ) (es : List TraceEvent)
    → TimeOrdered now es
    → TimeOrdered now (related_events targets es)
related_events-TimeOrdered targets now [] h = tt
related_events-TimeOrdered targets now (e ∷ es) h =
    let rest = related_events-TimeOrdered targets e.ts_ns es h.1 in
    elim (Bool-cases (related targets e)) [
      | inl mine ↦ rw mine (h.0, rest)
      | inr other ↦ rw other (TimeOrdered-earlier now e.ts_ns _ h.0 rest)
    ]

insert_by_time_first :
    (e : TraceEvent) (es : List TraceEvent) → TimeOrdered e.ts_ns es → insert_by_time e es ≡ e ∷ es
unfolding insert_by_time
insert_by_time_first e [] h = refl
insert_by_time_first e (f ∷ fs) h = ground arith

insert_by_time_other :
    (targets : List ℕ) (e : TraceEvent) (es : List TraceEvent)
    → related targets e ≡ false
    → related_events targets (insert_by_time e es) ≡ related_events targets es
unfolding insert_by_time
insert_by_time_other targets e [] h = rw h
insert_by_time_other targets e (f ∷ fs) h = elim (Bool-cases (leb e.ts_ns f.ts_ns)) [
  | inl before ↦ rw (before, h)
  | inr after ↦ rw (after, insert_by_time_other targets e fs h)
]

insert_by_time-related :
    (targets : List ℕ) (now : ℕ) (e : TraceEvent) (es : List TraceEvent)
    → related targets e ≡ true
    → TimeOrdered now es
    → related_events targets (insert_by_time e es) ≡ insert_by_time e (related_events targets es)
unfolding insert_by_time
insert_by_time-related targets now e [] h k = rw h
insert_by_time-related targets now e (f ∷ fs) h k = elim (Bool-cases (leb e.ts_ns f.ts_ns)) [
  | inl before ↦
      let le : e.ts_ns ≤ f.ts_ns = ground arith in
      let up = related_events-TimeOrdered targets e.ts_ns (f ∷ fs) (le, k.1) in
      rw (before, insert_by_time_first e (related_events targets (f ∷ fs)) up, h)
  | inr after ↦
      let ih = insert_by_time-related targets f.ts_ns e fs h k.1 in
      elim (Bool-cases (related targets f)) [
        | inl mine ↦ rw (after, mine, ih) (rw after)
        | inr other ↦ rw (after, other) ih
      ]
]

sort_by_time-related :
    (targets : List ℕ) (es : List TraceEvent)
    → related_events targets (sort_by_time es) ≡ sort_by_time (related_events targets es)
unfolding sort_by_time
sort_by_time-related targets [] = refl
sort_by_time-related targets (e ∷ es) =
    let ih = sort_by_time-related targets es in
    elim (Bool-cases (related targets e)) [
      | inl mine ↦ rw (
        mine,
        insert_by_time-related targets 0 e (sort_by_time es) mine (sort_by_time-TimeOrdered es),
        ih,
      )
      | inr other ↦ rw (other, insert_by_time_other targets e (sort_by_time es) other) ih
    ]

-- Events of other processes do not matter: the summary of a trace is the summary of what is left
-- of it once they are taken out, wherever in the trace they stood.
pub summarize_trace-related :
    (events : List TraceEvent) (targets : List ℕ)
    → summarize_trace (related_events targets events) targets ≡ summarize_trace events targets
unfolding summarize_trace
summarize_trace-related events targets =
    rw (← sort_by_time-related targets events)
      (process-related targets initial (sort_by_time events))
