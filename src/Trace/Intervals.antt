-- ===== src/Trace/Intervals.antt =====
-- The intervals that `summarize_trace` of capture/parse_trace.py builds from a dict of start times.
use k8labs.Base.{ℕ, ◌+◌, ◌-◌, ◌≤◌, ◌≡◌, ◌≢◌, inl, inr, true, none, some}
use k8labs.Base.{List, [], ◌∷◌, ◌++◌, arith, leb, ◌==◌, comparable_nat, contains}
use k8labs.Base.{if◌then◌else◌, All, All-append, All-map, Bool-cases, Option-cases}
use k8labs.Base.Dict
use k8labs.Base.Dict.{Dict}
use k8labs.Trace.{Interval, close}

-- A closed interval of a requested process, no later than `now`.
abbrev pub Closed : List ℕ → ℕ → Interval → Type 0
Closed targets now x =
    (contains targets x.pid ≡ true)
    × (x.start_ts_ns + x.duration_ns ≡ x.end_ts_ns)
    × (x.end_ts_ns ≤ now)

-- The intervals of one process do not overlap, and stand in the order of time.
abbrev pub Separated : List Interval → Type 0
Separated [] = Unit
Separated (x ∷ xs) = All (λ y. x.pid ≡ y.pid → x.end_ts_ns ≤ y.start_ts_ns) xs × Separated xs

-- The intervals closed so far and the start times still open, at a time `now`.
pub record Track (targets : List ℕ) (now : ℕ) (l : List Interval) (starts : Dict ℕ ℕ) : Type 0 where
  pub closed : All (Closed targets now) l
  pub pending :
      (p start : ℕ)
      → Dict.lookup p starts ≡ some start
      → (start ≤ now) × All (λ x. x.pid ≡ p → x.end_ts_ns ≤ start) l
  pub apart : Separated l

append-Separated :
    (xs : List Interval) (y : Interval)
    → Separated xs
    → All (λ x. x.pid ≡ y.pid → x.end_ts_ns ≤ y.start_ts_ns) xs
    → Separated (xs ++ (y ∷ []))
append-Separated [] y h k = (tt, tt)
append-Separated (x ∷ xs) y h k =
    (All-append _ xs (y ∷ []) h.0 (k.0, tt), append-Separated xs y h.1 k.1)

pub Track-initial : (targets : List ℕ) → Track targets 0 [] []
unfolding Dict.lookup
Track-initial targets = record { closed = tt; pending = λ p start h. absurd (cc); apart = tt }

module _ (targets : List ℕ) (now : ℕ) (l : List Interval) (starts : Dict ℕ ℕ) where
  pub Track-later :
      (now' : ℕ) → now ≤ now' → Track targets now l starts → Track targets now' l starts
  Track-later now' h t = record {
    closed =
        All-map (Closed targets now) (Closed targets now') l (λ x c. (c.0, c.1, omega arith))
          t.closed;
    pending = λ p start e. let (le, ends) = t.pending p start e in (omega arith, ends);
    apart = t.apart;
  }

  pub Track-insert :
      (p : ℕ) → Track targets now l starts → Track targets now l (Dict.insert p now starts)
  Track-insert p t = record {
    closed = t.closed;
    pending = λ q start e. pending q start (rw Dict.lookup-insert at e);
    apart = t.apart;
  }
    where
      pending :
          (q start : ℕ)
          → (if p == q then some now else Dict.lookup q starts) ≡ some start
          → (start ≤ now) × All (λ x. x.pid ≡ q → x.end_ts_ns ≤ start) l
      pending q start e = elim (Bool-cases (p == q)) [
        | inl same ↦
            let here : now ≡ start = ground arith in
            (
              omega arith,
              All-map (Closed targets now) (λ x. x.pid ≡ q → x.end_ts_ns ≤ start) l
                  (λ x c _. omega arith) t.closed,
            )
        | inr other ↦ t.pending q start (ground arith)
      ]

  pub Track-erase : (p : ℕ) → Track targets now l starts → Track targets now l (Dict.erase p starts)
  Track-erase p t = record {
    closed = t.closed;
    pending = λ q start e.
        let e' : (if p == q then none else Dict.lookup q starts) ≡ some start =
          rw Dict.lookup-erase at e in
        t.pending q start (ground arith);
    apart = t.apart;
  }

  pub Track-close :
      (p : ℕ)
      → contains targets p ≡ true
      → Track targets now l starts
      → Track targets now (close targets p (Dict.lookup p starts) now l) (Dict.erase p starts)
  Track-close p mine t = elim (Option-cases (Dict.lookup p starts)) [
    | inl absent ↦ rw (absent, close) (Track-erase p t)
    | inr (start, e) ↦
        let (le, ends) = t.pending p start e in
        let ok : leb start now ≡ true = ground arith in
        let new : Interval = record {
          pid = p;
          start_ts_ns = start;
          end_ts_ns = now;
          duration_ns = now - start;
        } in
        rw (e, ok)
          (record {
            closed = All-append _ l (new ∷ []) t.closed ((mine, omega arith, omega arith), tt);
            pending = λ q st h.
                let h' : (if p == q then none else Dict.lookup q starts) ≡ some st =
                  rw Dict.lookup-erase at h in
                let other : p ≢ q = λ same. ground (arith, same) in
                let (le', ends') = t.pending q st (ground arith) in
                (le', All-append _ l (new ∷ []) ends' (λ same. absurd (other same), tt));
            apart = append-Separated l new t.apart (All-map _ _ l (λ x f same. f same) ends);
          })
  ]
