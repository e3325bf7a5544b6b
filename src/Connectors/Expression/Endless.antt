-- ===== src/Connectors/Expression/Endless.antt =====
-- connectors/groundworkFunctions.go: expressions whose evaluation never ends.
use tcg.Common.{◌≡◌, ◌∙◌, refl, ℕ, zero, suc, false, some, String, Dict}
use tcg.Mapping.{trim_space}
use tcg.Connectors.Functions.{FloatArith}
use tcg.Connectors.Expression.{
  Variable, Gval, Evaluated, out_of_fuel, is_call, inner_call, reduce, evaluate,
}

module _ (ar : FloatArith) (gval : Gval) where
  evaluate-reduce :
      (fuel : ℕ) (text : String) (vars : Dict Variable) (counter : ℕ)
      → is_call (trim_space text) ≡ false
      → evaluate ar gval (suc fuel) text vars counter
        ≡ reduce ar gval (evaluate ar gval fuel) (suc fuel) (trim_space text) vars counter
  unfolding evaluate
  evaluate-reduce fuel text vars counter e = rw (e, evaluate) refl

  reduce-inner :
      (f : String → Dict Variable → ℕ → Evaluated) (fuel : ℕ) (text call : String)
      → (vars : Dict Variable) → (counter : ℕ) → inner_call text ≡ some call
      → f call vars counter ≡ out_of_fuel
      → reduce ar gval f (suc fuel) text vars counter ≡ out_of_fuel
  unfolding reduce
  reduce-inner f fuel text call vars counter e h = rw (e, h, reduce) refl

  evaluate-zero :
      (text : String) (vars : Dict Variable) (counter : ℕ)
      → evaluate ar gval 0 text vars counter ≡ out_of_fuel
  unfolding evaluate
  evaluate-zero text vars counter = refl

  evaluate-inner :
      (fuel : ℕ) (text call : String) (vars : Dict Variable) (counter : ℕ)
      → is_call (trim_space text) ≡ false
      → inner_call (trim_space text) ≡ some call
      → evaluate ar gval fuel call vars counter ≡ out_of_fuel
      → evaluate ar gval (suc fuel) text vars counter ≡ out_of_fuel
  evaluate-inner fuel text call vars counter c i h =
      evaluate-reduce fuel text vars counter c
      ∙ reduce-inner (evaluate ar gval fuel) fuel (trim_space text) call vars counter i h

  evaluate_itself :
      (fuel : ℕ) (text : String) (vars : Dict Variable) (counter : ℕ)
      → trim_space text ≡ text
      → is_call text ≡ false
      → inner_call text ≡ some text
      → evaluate ar gval fuel text vars counter ≡ out_of_fuel
  evaluate_itself zero text vars counter t c i = evaluate-zero text vars counter
  evaluate_itself (suc fuel) text vars counter t c i =
      evaluate-inner fuel text text vars counter (rw t c) (rw t i)
        (evaluate_itself fuel text vars counter t c i)

  -- No fuel is enough to evaluate an expression that is no call itself and whose first call, from
  -- the last `GW:` through the next `)`, has not the form of a call either, and is its own first call:
  -- an argument with parentheses cuts it short.
  pub evaluate_endless :
      (fuel : ℕ) (text call : String) (vars : Dict Variable) (counter : ℕ)
      → is_call (trim_space text) ≡ false
      → inner_call (trim_space text) ≡ some call
      → trim_space call ≡ call
      → is_call call ≡ false
      → inner_call call ≡ some call
      → evaluate ar gval fuel text vars counter ≡ out_of_fuel
  evaluate_endless zero text call vars counter c i t d j = evaluate-zero text vars counter
  evaluate_endless (suc fuel) text call vars counter c i t d j =
      evaluate-inner fuel text call vars counter c i (evaluate_itself fuel call vars counter t d j)
