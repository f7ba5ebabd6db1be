-- ===== src/Tests/Fits.antt =====
-- A fit over differences of natural numbers, which can be negated.
use k8labs.Base.{
  ℕ, List, [], ◌∷◌, ◌≡◌, refl, arith, ok, Floats, true, false, Bool, ltb, leb, ◌+◌, ◌*◌,
}
use k8labs.Base.{◌/◌, some, length, Result, raise, ap, String}
use k8labs.Base
use k8labs.Regression.{Arithmetic, Observation, MonotonicFit, pav, fit_monotonic, predict}
use k8labs.Regression
use k8labs.Regression.Laws.{IsPav, pav-IsPav}
use k8labs.Regression.Table
use k8labs.Regression.Table.{fit_response_table}
use k8labs.Regression.Table.Laws.{fit_response_table-predict}
use k8labs.Base.{Value, Fields, pos}
use Prim.Native.Nat.{◌^◌}

abbrev Difference : Type 0
Difference = ℕ × ℕ

abbrev differences : Floats
differences = record {
  Float = Difference;
  of_nat = λ n. (n * 1000, 0);
  decimal = λ n k. (n * 1000 / 10 ^ k, 0);
  lt = λ a b. ltb (a.0 + b.1) (b.0 + a.1);
  le = λ a b. leb (a.0 + b.1) (b.0 + a.1);
  add = λ a b. (a.0 + b.0, a.1 + b.1);
  sub = λ a b. (a.0 + b.1, a.1 + b.0);
  mul = λ a b. (a.0 * b.0 / 1000, a.1 * b.0 / 1000);
  div = λ a b. (a.0 * 1000 / b.0, a.1 * 1000 / b.0);
  quotient = λ a b. (a * 1000 / b, 0);
  is_finite = λ a. true;
  trunc = λ a. some (a.0 / 1000);
}

abbrev total : List Difference → Difference
total [] = (0, 0)
total (a ∷ r) = (a.0 + (total r).0, a.1 + (total r).1)

abbrev arithmetic : Arithmetic differences
arithmetic = record {
  sum = total;
  fmean = λ l. ((total l).0 / length l, (total l).1 / length l);
  stdev = λ l. (0, 0);
  square_root = λ a. a;
  pstdev = λ l. (0, 0);
  negate = λ a. (a.1, a.0);
  absolute = λ a. a;
  round2 = λ a. a;
}

not_below : (a : Difference) → ltb (a.0 + a.1) (a.0 + a.1) ≡ false
not_below a = ground arith

turns : (a b : Difference) → ltb (a.1 + b.0) (b.1 + a.0) ≡ ltb (b.0 + a.1) (a.0 + b.1)
turns a b =
    let left : a.1 + b.0 ≡ b.0 + a.1 = omega arith in
    let right : b.1 + a.0 ≡ a.0 + b.1 = omega arith in rw (left, right) refl

lt_or_le :
    (a b : Difference)
    → true ≡ true
    → true ≡ true
    → ltb (a.0 + b.1) (b.0 + a.1) ≡ false
    → leb (b.0 + a.1) (a.0 + b.1) ≡ true
lt_or_le a b finite_a finite_b h = ground arith

le_or_le :
    (a b : Difference)
    → true ≡ true
    → true ≡ true
    → leb (a.0 + b.1) (b.0 + a.1) ≡ false
    → leb (b.0 + a.1) (a.0 + b.1) ≡ true
le_or_le a b finite_a finite_b h = ground arith

-- A fall, a rise that is pooled, and a fall.
abbrev measured : List Difference
measured = (9000, 0) ∷ (3000, 0) ∷ (5000, 0) ∷ (1000, 0) ∷ []

pav-IsPav_example :
    IsPav differences arithmetic not_below turns true measured
      (pav differences arithmetic true measured)
pav-IsPav_example = pav-IsPav differences arithmetic not_below turns true measured

-- Rows of three levels with two samples each, and one that is not valid.
abbrev row : Bool → ℕ → ℕ → Fields Difference
row valid x value = Fields.entry "valid" (Value.boolean valid) (
    Fields.entry "limit" (Value.int (pos x))
      (Fields.entry "p99" (Value.float (value, 0)) Fields.empty))

abbrev rows : List (Fields Difference)
rows =
    row true 2 9000
    ∷ row true 1 12000
    ∷ row true 4 3000
    ∷ row false 4 90000
    ∷ row true 4 5000
    ∷ row true 2 9000
    ∷ row true 1 14000
    ∷ []

abbrev fit : MonotonicFit differences
fit = record {
  direction = "lower";
  x_min = (1000, 0);
  x_max = (4000, 0);
  xs = (1000, 0) ∷ (2000, 0) ∷ (4000, 0) ∷ [];
  values = (13000, 0) ∷ (9000, 0) ∷ (4000, 0) ∷ [];
  lower = (13000, 0) ∷ (9000, 0) ∷ (4000, 0) ∷ [];
  upper = (13000, 0) ∷ (9000, 0) ∷ (4000, 0) ∷ [];
  sample_count = 6;
}

fits : fit_response_table differences arithmetic rows "limit" "p99" "lower" 2 (950, 0) ≡ ok fit
unfolding fit_response_table Table.group_rows Table.usable_pair Table.add_sample Table.samples_at
    Table.usable_levels Table.with_bounds Table.widen Table.count_samples Table.as_float
    Table.is_valid Table.is_unbound Base.get fit_monotonic Base.sort_by Base.insert_by
    Regression.any_step_back Regression.fit_ordered pav Regression.fitted Regression.pool
    Regression.settle Regression.spread_of
fits = refl

fit_response_table-predict_example : (v : Difference) × (predict differences fit (3000, 0) ≡ ok v)
fit_response_table-predict_example =
    fit_response_table-predict differences arithmetic not_below turns lt_or_le le_or_le rows "limit"
      "p99" "lower" 2 (950, 0) fit (3000, 0) fits refl refl refl
