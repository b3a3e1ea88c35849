-- ===== src/Tests/Configs.antt =====
-- Numbers as tallies, so that printing and reading them is short.
use Prim.Native.String.{count, ◌++◌ as text_append}
use text.Mathlib.TextLemmas.{length-append}
use backend_assessment.Prelude.{
  ℕ, zero, suc, ◌+◌, ◌-◌, ◌*◌, ◌/◌, ◌%◌, ◌≡◌, ◌≢◌, refl, ap, Bool, true, false, Option, none, some,
  String, [], ◌∷◌, ℤ, pos, negsuc, ◌==◌, if◌then◌else◌, str_eq, eq_iff, arith,
}
use backend_assessment.Prelude.Dict.{lookup}
use backend_assessment.Config.{Config, default_config, load}
use backend_assessment.Config.RoundTrip.{getenv, variables, Prints, IsPrintable, load-variables}

tally : ℕ → String
tally zero = ""
tally (suc n) = text_append "1" (tally n)

abbrev itoa : ℤ → String
itoa (pos n) = tally (suc (n * 2))
itoa (negsuc n) = tally (suc (n * 2 + 1))

abbrev atoi : String → Option ℤ
atoi s =
    if count s == 0
    then none
    else if (count s - 1) % 2 == 0
    then some (pos ((count s - 1) / 2))
    else some (negsuc ((count s - 1) / 2))

abbrev format_bool : Bool → String
format_bool true = "true"
format_bool false = "false"

abbrev parse_bool : String → Option Bool
parse_bool s = if str_eq s "true" then some true else if str_eq s "false" then some false else none

count-tally : (n : ℕ) → count (tally n) ≡ n
unfolding tally
count-tally zero = refl
count-tally (suc n) = omega (arith, length-append "1" (tally n), count-tally n)

atoi-itoa : (z : ℤ) → atoi (itoa z) ≡ some z
atoi-itoa (pos n) = rw (count-tally (suc (n * 2))) (ground arith)
atoi-itoa (negsuc n) = rw (count-tally (suc (n * 2 + 1))) (ground arith)

tally_set : (n : ℕ) → tally (suc n) ≢ ""
tally_set n e = omega (arith, count-tally (suc n), ap count e)

itoa_set : (z : ℤ) → itoa z ≢ ""
itoa_set (pos n) = tally_set (n * 2)
itoa_set (negsuc n) = tally_set (n * 2 + 1)

parse_bool-format_bool : (b : Bool) → parse_bool (format_bool b) ≡ some b
parse_bool-format_bool true = refl
parse_bool-format_bool false = refl

format_bool_set : (b : Bool) → format_bool b ≢ ""
format_bool_set true e = ground (arith, eq_iff "true" "", e)
format_bool_set false e = ground (arith, eq_iff "false" "", e)

prints : Prints atoi parse_bool itoa format_bool
prints = record {
  atoi-itoa = λ n fits. atoi-itoa n;
  itoa_set = itoa_set;
  parse_bool-format_bool = parse_bool-format_bool;
  format_bool_set = format_bool_set;
}

abbrev production : Config
production = record default_config { port = pos 80; log_level = "warn"; tracing_enabled = true }

set : (s t : String) → str_eq s t ≡ false → s ≢ t
set s t differ e = ground (arith, eq_iff s t, e)

production-IsPrintable : IsPrintable atoi parse_bool itoa format_bool production
production-IsPrintable = record {
  port = ground arith;
  rate_limit_rpm = ground arith;
  rate_limit_burst = ground arith;
  cb_failure_threshold = ground arith;
  cb_reset_timeout_sec = ground arith;
  database_url = set production.database_url "" refl;
  log_level = set "warn" "" refl;
  jwt_secret = set production.jwt_secret "" refl;
  redis_url = set production.redis_url "" refl;
  jaeger_endpoint = set production.jaeger_endpoint "" refl;
  service_name = set production.service_name "" refl;
  environment = set production.environment "" refl;
}

load-variables_example :
    load atoi parse_bool (getenv (variables atoi parse_bool itoa format_bool production))
    ≡ production
load-variables_example =
    load-variables atoi parse_bool itoa format_bool production prints production-IsPrintable

-- What is not set, or does not parse, leaves the default.
defaults :
    load atoi parse_bool (getenv (("PORT", "") ∷ ("TRACING_ENABLED", "maybe") ∷ []))
    ≡ default_config
unfolding load getenv lookup
defaults = refl

-- Two texts that are numbers, of which only one fits.
abbrev read : String → Option ℤ
read s = if str_eq s "80" then some (pos 80) else none

abbrev too_large : String → String
too_large v = if str_eq v "PORT" then "9223372036854775808" else "80"
