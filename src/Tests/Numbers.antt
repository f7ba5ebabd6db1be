-- ===== src/Tests/Numbers.antt =====
-- Floats as whole thousandths, for the runs of the code that computes with floats.
use Prim.Native.Nat.{ℕ, ◌+◌, ◌-◌, ◌*◌, ◌/◌, ◌^◌}
use k8labs.Base.{Floats, true, some, ltb, leb}

abbrev pub thousandths : Floats
thousandths = record {
  Float = ℕ;
  of_nat = λ n. n * 1000;
  decimal = λ n k. n * 1000 / 10 ^ k;
  lt = ltb;
  le = leb;
  add = λ a b. a + b;
  sub = λ a b. a - b;
  mul = λ a b. a * b / 1000;
  div = λ a b. a * 1000 / b;
  quotient = λ a b. a * 1000 / b;
  is_finite = λ x. true;
  trunc = λ x. some (x / 1000);
}
