-- ===== src/Nsca/Tests.antt =====
-- connectors/nsca/parser/parser.go on given lines.
use tcg.Common.{
  ◌≡◌, refl, inl, ◌+◌, ◌-◌, none, some, Option, [], ◌∷◌, String, pos, negsuc, ℤ, lookup, returns,
  ltb, leb, ◌==◌,
}
use tcg.Transit.Value.{FloatOps, Float64}
use tcg.Nsca.{
  Env, Fields, nsca, bronx, parse, lines_of, line_service, get_services, nsca_time, bronx_time,
  bad_integer, unknown_status, metric_key,
}
use tcg.Nsca.Grouped.{each, Becomes, get_services_lem}
use tcg.Nsca.Total.{Fine, Anything, parse_total}

abbrev num : ℤ → Float64
num (pos n) = record { bits = 1000 + n }
num (negsuc n) = record { bits = 999 - n }

abbrev ops : FloatOps
ops = record {
  of_int = num;
  lt = λ a b. ltb a.bits b.bits;
  le = λ a b. leb a.bits b.bits;
  eq = λ a b. a.bits == b.bits;
  of_float32 = λ n. record { bits = n };
}

abbrev fields : String → String → String → Fields
fields name status msg = record {
  ts = "";
  res_name = "box";
  svc_name = name;
  status = status;
  msg = msg;
  perf = "a=1;;";
}

abbrev found : String → Option Fields
found line = lookup line (
    ("1", fields "disk" "0" "fine")
    ∷ ("2", fields "" "2" "down")
    ∷ ("3", fields "disk" "1" "late")
    ∷ ("4", fields "load" "9" "?")
    ∷ [])

abbrev env : Env
env = record {
  fp = ops;
  now = record { unix_nano = pos 5 };
  bronx_match = found;
  nsca_match = found;
  perf_match = λ s. some (record { label = "a"; val = "1"; warn = ""; crit = "" });
  parse_int = λ s. none;
  parse_float = λ s. some (num (pos 1));
}

two_lines : lines_of " 1\n2\r\n" ≡ "1" ∷ "2" ∷ []
unfolding lines_of
two_lines = refl

-- Bronx needs the time of a line, which NSCA can do without.
no_time : parse env (λ m. m) "1" bronx ≡ returns (inl bad_integer)
unfolding parse bronx_time
no_time = refl

get_services_lem_example :
    Becomes env.now "box"
      (each (line_service env found (nsca_time env) []) ("1" ∷ "2" ∷ "3" ∷ []))
      (get_services env found (nsca_time env) [] ("1" ∷ "2" ∷ "3" ∷ []))
get_services_lem_example =
    get_services_lem env found (nsca_time env) [] "box" ("1" ∷ "2" ∷ "3" ∷ [])

parse_total_example : Fine Anything (parse env (λ m. m) "1\n2\n3" nsca)
parse_total_example = parse_total env (λ m. m) "1\n2\n3" nsca

unknown_state : parse env (λ m. m) "1\n4" nsca ≡ returns (inl unknown_status)
unfolding parse nsca_time
unknown_state = refl

-- The keys of the metrics do not tell these two services apart.
shared_key :
    metric_key (record (fields "c" "0" "") { res_name = "a:b" })
    ≡ metric_key (record (fields "b:c" "0" "") { res_name = "a" })
unfolding metric_key
shared_key = refl
