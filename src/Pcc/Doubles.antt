-- ===== src/Pcc/Doubles.antt =====
-- What src/pcc does with values of type `double`. They are machine numbers, so the type and its
-- operations are parameters, with no law assumed.
use elastic_translations_mic.Prelude.{ℕ, ℤ, Bool}

-- `of_nat` converts an unsigned integer, `to_int` is the cast to `int`, and `alpha` is ALPHA.
pub record Doubles : Type 1 where
  pub Double : Type 0
  pub of_nat : ℕ → Double
  pub alpha : Double
  pub add : Double → Double → Double
  pub sub : Double → Double → Double
  pub mul : Double → Double → Double
  pub div : Double → Double → Double
  pub pow : Double → Double → Double
  pub sqrt : Double → Double
  pub eq : Double → Double → Bool
  pub to_int : Double → ℤ
