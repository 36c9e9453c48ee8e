-- ===== src/Float.antt =====
-- The `float64` operations that the code uses, as an interface: the theorems hold for whatever the
-- arithmetic is, and those that need a law of it name the law as a hypothesis.
use cryptofiend.Prelude.{ℕ, ◌+◌, ◌-◌, ◌*◌, ◌/◌, Bool, ltb, leb, ◌==◌}

pub record Float : Type 1 where
  pub Num : Type 0
  pub zero : Num
  -- a whole constant of the code
  pub of_ℕ : ℕ → Num
  pub add : Num → Num → Num
  pub sub : Num → Num → Num
  pub mul : Num → Num → Num
  pub div : Num → Num → Num
  pub lt : Num → Num → Bool
  pub le : Num → Num → Bool
  pub eq : Num → Num → Bool

-- An arithmetic to run the code with: whole amounts of the smallest unit.
abbrev pub whole : Float
whole = record {
  Num = ℕ;
  zero = 0;
  of_ℕ = λ n. n;
  add = λ a b. a + b;
  sub = λ a b. a - b;
  mul = λ a b. a * b;
  div = λ a b. a / b;
  lt = ltb;
  le = leb;
  eq = λ a b. a == b;
}
