-- ===== src/Connectors/Functions.antt =====
-- connectors/groundworkFunctions.go: the functions that an expression can name.
use tcg.Common.{ℕ, ◌&&◌, List, [], ◌∷◌, String, ℤ, pos, Outcome, returns, panics, if◌then◌else◌}
use tcg.Transit.Value.{Float64, FloatOps}

-- The arithmetic of float64, and `int(x)`.
pub record FloatArith : Type 0 where
  pub ops : FloatOps
  pub sub : Float64 → Float64 → Float64
  pub add : Float64 → Float64 → Float64
  pub mul : Float64 → Float64 → Float64
  pub div : Float64 → Float64 → Float64
  pub to_int : Float64 → ℤ

abbrev pub Function : Type 0
Function = List Float64 → Outcome Float64

-- `values[0]` and so on: an index out of range panics.
abbrev one : (Float64 → Float64) → Function
one f (a ∷ rest) = returns (f a)
one f [] = panics

abbrev two : (Float64 → Float64 → Float64) → Function
two f (a ∷ (b ∷ rest)) = returns (f a b)
two f _ = panics

abbrev four : (Float64 → Float64 → Float64 → Float64 → Float64) → Function
four f (a ∷ (b ∷ (c ∷ (d ∷ rest)))) = returns (f a b c d)
four f _ = panics

-- 0.49
abbrev rounding : Float64
rounding = record { bits = 4602498675187552092 }

module _ (ar : FloatArith) where
  abbrev of_nat : ℕ → Float64
  of_nat n = ar.ops.of_int (pos n)

  unfoldable pub kb : Float64 → Float64
  kb x = ar.div x (of_nat 1024)

  unfoldable pub mb : Float64 → Float64
  mb x = ar.div x (of_nat 1048576)

  unfoldable pub gb : Float64 → Float64
  gb x = ar.div x (of_nat 1073741824)

  unfoldable pub tb : Float64 → Float64
  tb x = ar.div x (of_nat 1099511627776)

  unfoldable pub kb2 : Float64 → Float64
  kb2 x = ar.div x (of_nat 1000)

  unfoldable pub mb2 : Float64 → Float64
  mb2 x = ar.div x (of_nat 1000000)

  unfoldable pub gb2 : Float64 → Float64
  gb2 x = ar.div x (of_nat 1000000000)

  unfoldable pub tb2 : Float64 → Float64
  tb2 x = ar.div x (of_nat 1000000000000)

  -- MaxInt and MaxFloat, MinInt and MinFloat.
  unfoldable pub max_float : Float64 → Float64 → Float64
  max_float a b = if ar.ops.lt b a then a else b

  unfoldable pub min_float : Float64 → Float64 → Float64
  min_float a b = if ar.ops.lt a b then a else b

  unfoldable pub double_to_int : Float64 → Float64
  double_to_int x = ar.ops.of_int (ar.to_int x)

  unfoldable pub to_percentage : Float64 → Float64
  unfolding max_float
  to_percentage x = ar.add (max_float (of_nat 0) (ar.mul x (of_nat 100))) rounding

  unfoldable pub to_percentage_limit : Float64 → Float64
  unfolding max_float min_float
  to_percentage_limit x =
      ar.add (max_float (of_nat 0) (min_float (of_nat 100) (ar.mul x (of_nat 100)))) rounding

  unfoldable pub divide_to_percentage : Float64 → Float64 → Float64
  unfolding to_percentage
  divide_to_percentage a b = if ar.ops.eq b (of_nat 0) then of_nat 0 else to_percentage (ar.div a b)

  -- A value times a factor, where 0 is no factor.
  unfoldable pub scaled : Float64 → Float64 → Float64
  scaled x factor = if ar.ops.eq factor (of_nat 0) then x else ar.mul x factor

  -- The scaled value in relation to the scaled whole, where it is not 0.
  unfoldable pub usage_of : Float64 → Float64 → Float64 → Float64 → Float64
  unfolding scaled
  usage_of value available value_factor available_factor =
      let usage = scaled value value_factor in
      let available_scaled = scaled available available_factor in
      if ar.ops.eq usage (of_nat 0) then usage else ar.div usage available_scaled

  unfoldable pub scale_percentage_used : Float64 → Float64 → Float64 → Float64 → Float64
  unfolding usage_of to_percentage
  scale_percentage_used used available used_factor available_factor =
      if ar.ops.eq used (of_nat 0) && ar.ops.eq available (of_nat 0)
      then of_nat 0
      else to_percentage (usage_of used available used_factor available_factor)

  unfoldable pub scale_percentage_unused : Float64 → Float64 → Float64 → Float64 → Float64
  unfolding usage_of to_percentage
  scale_percentage_unused unused available usage_factor available_factor =
      if ar.ops.eq unused (of_nat 0) && ar.ops.eq available (of_nat 0)
      then of_nat 0
      else to_percentage
          (ar.sub (of_nat 1) (usage_of unused available usage_factor available_factor))

  unfoldable pub percentage_used : Float64 → Float64 → Float64
  unfolding scale_percentage_used
  percentage_used used available = scale_percentage_used used available (of_nat 1) (of_nat 0)

  unfoldable pub percentage_unused : Float64 → Float64 → Float64
  unfolding scale_percentage_unused
  percentage_unused demand usage = scale_percentage_unused demand usage (of_nat 1) (of_nat 0)

  -- expressionToArgsCountMap and expressionToFuncMap.
  unfoldable pub functions : List (String × (ℕ × Function))
  unfolding kb mb gb tb kb2 mb2 gb2 tb2 max_float min_float double_to_int to_percentage
      percentage_used percentage_unused to_percentage_limit divide_to_percentage
      scale_percentage_used scale_percentage_unused
  functions =
      ("GW:KB", (1, one kb))
      ∷ ("GW:MB", (1, one mb))
      ∷ ("GW:GB", (1, one gb))
      ∷ ("GW:TB", (1, one tb))
      ∷ ("GW:KB2", (1, one kb2))
      ∷ ("GW:MB2", (1, one mb2))
      ∷ ("GW:GB2", (1, one gb2))
      ∷ ("GW:TB2", (1, one tb2))
      ∷ ("GW:maxInt", (2, two max_float))
      ∷ ("GW:minInt", (2, two min_float))
      ∷ ("GW:maxDouble", (2, two max_float))
      ∷ ("GW:minDouble", (2, two min_float))
      ∷ ("GW:toDouble", (1, one (λ x. x)))
      ∷ ("GW:toInt", (1, one double_to_int))
      ∷ ("GW:toPercentage", (1, one to_percentage))
      ∷ ("GW:percentageUsed", (2, two percentage_used))
      ∷ ("GW:percentageUnused", (2, two percentage_unused))
      ∷ ("GW:toPercentageLimit", (1, one to_percentage_limit))
      ∷ ("GW:divideToPercentage", (2, two divide_to_percentage))
      ∷ ("GW:scalePercentageUsed", (4, four scale_percentage_used))
      ∷ ("GW:scalePercentageUnused", (4, four scale_percentage_unused))
      ∷ []
