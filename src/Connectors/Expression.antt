-- ===== src/Connectors/Expression.antt =====
-- connectors/groundworkFunctions.go: EvaluateGroundworkExpression. gval.Evaluate is an argument. The
-- recursion runs on fuel: it does not always end.
pub mod Endless
use Prim.Native.String.{[] as empty, ◌∷◌ as after, ◌++◌ as join}
use Prim.Native.Char.{code}
use tcg.Common.{
  ℕ, zero, suc, ◌+◌, Bool, true, false, not, ◌&&◌, ◌||◌, Option, none, some, List, [], ◌∷◌, ◌++◌,
  String, Dict, lookup, insert, length, leb, ◌==◌, str_eq, decimal, has_prefix, replace_all,
  Outcome, returns, panics, if◌then◌else◌,
}
use tcg.Mapping.{split_comma, trim_space}
use tcg.Transit.Value.{Float64}
use tcg.Connectors.Functions.{FloatArith, Function, functions}

-- A variable: a number, or a pointer to one, none for nil.
pub data Variable : Type 0 where
  number : Float64 → Variable
  pointer : Option Float64 → Variable

-- What an evaluation comes to. The variables are shared and keep what was added to them.
pub data Evaluated : Type 0 where
  value : Float64 → List Float64 → Dict Variable → Evaluated
  fails : Dict Variable → Evaluated
  breaks : Evaluated
  out_of_fuel : Evaluated

-- gval.Evaluate: none for an error, and a value that is no float64 is none in its turn.
abbrev pub Gval : Type 0
Gval = String → Dict Variable → Option (Option Float64)

abbrev is_word : ℕ → Bool
is_word n =
    ((leb 48 n && leb n 57) || (leb 65 n && leb n 90)) || ((leb 97 n && leb n 122) || (n == 95))

-- `[^\(\)]*\)$` and, with a character before it, `[^\(\)]+\)$`.
unfoldable pub closes : String → Bool
closes empty = false
closes (after c s) =
    let rest = closes s in
    if code c == 41 then str_eq s "" else if code c == 40 then false else rest

unfoldable pub arguments_close : String → Bool
unfolding closes
arguments_close empty = false
arguments_close (after c s) = not (code c == 41 || code c == 40) && closes s

-- `\w*\([^\(\)]+\)$`
unfoldable pub word_then_arguments : String → Bool
unfolding arguments_close
word_then_arguments empty = false
word_then_arguments (after c s) =
    let rest = word_then_arguments s in
    if code c == 40 then arguments_close s else is_word (code c) && rest

-- `\w+\([^\(\)]+\)$`
unfoldable pub name_then_arguments : String → Bool
unfolding word_then_arguments
name_then_arguments empty = false
name_then_arguments (after c s) = is_word (code c) && word_then_arguments s

-- `^GW:\w+\([^\(\)]+\)$`
unfoldable pub is_call : String → Bool
unfolding name_then_arguments
is_call (after g (after w (after colon s))) =
    ((code g == 71) && ((code w == 87) && (code colon == 58))) && name_then_arguments s
is_call _ = false

-- The text before the first `(`, and that from it on without it.
unfoldable pub before_open : String → String
before_open empty = ""
before_open (after c s) = let rest = before_open s in if code c == 40 then "" else after c rest

unfoldable pub after_open : String → String
after_open empty = ""
after_open (after c s) = let rest = after_open s in if code c == 40 then s else rest

-- The text before the last `)`, of a text that has one.
unfoldable pub before_last_close : String → Option String
before_last_close empty = none
before_last_close (after c s) = elim (before_last_close s) [
  | some rest ↦ some (after c rest)
  | none ↦ if code c == 41 then some "" else none
]

-- The text from the last `GW:` on.
unfoldable pub last_call : String → Option String
unfolding has_prefix
last_call empty = none
last_call (after c s) = elim (last_call s) [
  | some rest ↦ some rest
  | none ↦ if has_prefix (after c s) "GW:" then some (after c s) else none
]

-- The text up to the first `)` and with it; none where there is none.
unfoldable pub through_close : String → Option String
through_close empty = none
through_close (after c s) = elim (through_close s) [
  | some rest ↦ if code c == 41 then some ")" else some (after c rest)
  | none ↦ if code c == 41 then some ")" else none
]

-- The call that is evaluated first: the text from the last `GW:` through the next `)`, and empty
-- without one; none where there is no `GW:`.
unfoldable pub inner_call : String → Option String
unfolding last_call through_close
inner_call e = elim (last_call e) [
  | none ↦ none
  | some rest ↦ elim (through_close rest) [ none ↦ some "" | some call ↦ some call ]
]

-- strings.ReplaceAll of the empty text: before each character and at the end.
unfoldable pub weave : String → String → String
weave new empty = new
weave new (after c s) = join new (after c (weave new s))

unfoldable pub replace_call : String → String → String → String
unfolding replace_all weave
replace_call e call new = if str_eq call "" then weave new e else replace_all e call new

-- strings.ContainsAny(val, "+-/*")
unfoldable pub has_operator : String → Bool
has_operator empty = false
has_operator (after c s) =
    ((code c == 43 || code c == 45) || (code c == 47 || code c == 42)) || has_operator s

abbrev with_args : Function → List Float64 → Dict Variable → Evaluated
with_args f xs vars = elim (f xs) [ panics ↦ breaks | returns v ↦ value v (v ∷ []) vars ]

-- A function of the table on what its arguments evaluate to.
unfoldable pub apply_call : (ℕ × Function) → Evaluated → Evaluated
apply_call (arity, f) (value v xs vars) =
    if length xs == arity then with_args f xs vars else fails vars
apply_call f (fails vars) = fails vars
apply_call f breaks = breaks
apply_call f out_of_fuel = out_of_fuel

module _ (ar : FloatArith) (gval : Gval) where
  abbrev one_argument : String → Dict Variable → Option (Outcome Float64)
  one_argument text vars =
      if has_operator text
      then elim (gval (replace_all text "." "_") vars) [
        | none ↦ none
        | some none ↦ some panics
        | some (some x) ↦ some (returns x)
      ]
      else elim (lookup (replace_all text "." "_") vars) [
        | none ↦ none
        | some (pointer p) ↦ some panics
        | some (number x) ↦ some (returns x)
      ]

  -- The values of the arguments, in their order; the first is the result.
  unfoldable pub argument_values : List String → List Float64 → Dict Variable → Evaluated
  unfolding trim_space has_operator replace_all lookup
  argument_values [] [] vars = breaks
  argument_values [] (x ∷ xs) vars = value x (x ∷ xs) vars
  argument_values (a ∷ rest) xs vars = elim (one_argument (trim_space a) vars) [
    | none ↦ fails vars
    | some panics ↦ breaks
    | some (returns x) ↦ argument_values rest (xs ++ x ∷ []) vars
  ]

  -- The loop that replaces the calls of a text, given what evaluates one.
  unfoldable pub reduce :
      (String → Dict Variable → ℕ → Evaluated) → ℕ → String → Dict Variable → ℕ → Evaluated
  unfolding inner_call argument_values split_comma replace_call decimal insert
  reduce evaluate zero e vars counter = out_of_fuel
  reduce evaluate (suc fuel) e vars counter = elim (inner_call e) [
    | none ↦ argument_values (split_comma e) [] vars
    | some call ↦ elim (evaluate call vars counter) [
      | value v xs vars' ↦
          (let name = join "res_" (decimal counter) in
            reduce evaluate fuel (replace_call e call name) (insert name (number v) vars')
              (counter + 1))
      | other ↦ other
    ]
  ]

  unfoldable pub evaluate_call :
      (String → Dict Variable → ℕ → Evaluated) → String → Dict Variable → ℕ → Evaluated
  unfolding functions before_open after_open before_last_close apply_call
  evaluate_call evaluate e vars counter = elim (lookup (before_open e) (functions ar)) [
    | none ↦ fails vars
    | some f ↦ elim (before_last_close (after_open e)) [
      | none ↦ breaks
      | some args ↦ apply_call f (evaluate args vars counter)
    ]
  ]

  unfoldable pub evaluate : ℕ → String → Dict Variable → ℕ → Evaluated
  unfolding trim_space is_call evaluate_call reduce
  evaluate zero text vars counter = out_of_fuel
  evaluate (suc fuel) text vars counter = elim (is_call (trim_space text)) [
    | true ↦ evaluate_call (evaluate fuel) (trim_space text) vars counter
    | false ↦ reduce (evaluate fuel) (suc fuel) (trim_space text) vars counter
  ]
