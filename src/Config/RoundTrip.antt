-- ===== src/Config/RoundTrip.antt =====
-- A configuration written out as an environment, and read back.
use backend_assessment.Prelude.{
  ◌≡◌, ◌≢◌, Bool, Option, none, some, String, [], ◌∷◌, ℤ, pos, negsuc, ◌≤ℤ◌, max_int64, eq_iff,
  arith,
}
use backend_assessment.Prelude.Dict.{Dict, lookup}
use backend_assessment.Config.{Config, text_or, parsed_or, load}

-- `os.Getenv` on the variables that are set.
unfoldable pub getenv : Dict String → String → String
getenv vars key = elim (lookup key vars) [ none ↦ "" | some v ↦ v ]

-- The values of a Go `int` of 64 bits.
abbrev pub IsInt64 : ℤ → Type 0
IsInt64 n = (negsuc max_int64 ≤ℤ n) × (n ≤ℤ pos max_int64)

text_or_set : (default v : String) → v ≢ "" → text_or default v ≡ v
unfolding text_or
text_or_set default v set = ground (arith, eq_iff v "", set)

parsed_or_set :
    {A : Type 0} (parse : String → Option A) (default : A) (v : String) (a : A)
    → v ≢ ""
    → parse v ≡ some a
    → parsed_or parse default v ≡ a
unfolding parsed_or
parsed_or_set parse default v a set e = rw e (ground (arith, eq_iff v "", set))

module _ (atoi : String → Option ℤ) (parse_bool : String → Option Bool) (itoa : ℤ → String)
    (format_bool : Bool → String) where
  -- The variables that Load reads, with the configuration's values.
  abbrev pub variables : Config → Dict String
  variables c =
      ("PORT", itoa c.port)
      ∷ ("DATABASE_URL", c.database_url)
      ∷ ("LOG_LEVEL", c.log_level)
      ∷ ("JWT_SECRET", c.jwt_secret)
      ∷ ("REDIS_URL", c.redis_url)
      ∷ ("TRACING_ENABLED", format_bool c.tracing_enabled)
      ∷ ("JAEGER_ENDPOINT", c.jaeger_endpoint)
      ∷ ("SERVICE_NAME", c.service_name)
      ∷ ("ENVIRONMENT", c.environment)
      ∷ ("RATE_LIMIT_RPM", itoa c.rate_limit_rpm)
      ∷ ("RATE_LIMIT_BURST", itoa c.rate_limit_burst)
      ∷ ("CB_FAILURE_THRESHOLD", itoa c.cb_failure_threshold)
      ∷ ("CB_RESET_TIMEOUT_SEC", itoa c.cb_reset_timeout_sec)
      ∷ []

  -- A number of 64 bits, and a truth value, is read back from its print, which is not empty.
  pub record Prints : Type 0 where
    pub atoi-itoa : (n : ℤ) → IsInt64 n → atoi (itoa n) ≡ some n
    pub itoa_set : (n : ℤ) → itoa n ≢ ""
    pub parse_bool-format_bool : (b : Bool) → parse_bool (format_bool b) ≡ some b
    pub format_bool_set : (b : Bool) → format_bool b ≢ ""

  -- The numbers fit their fields. An empty text is as good as none, so that the default would take
  -- its place.
  pub record IsPrintable (c : Config) : Type 0 where
    pub port : IsInt64 c.port
    pub rate_limit_rpm : IsInt64 c.rate_limit_rpm
    pub rate_limit_burst : IsInt64 c.rate_limit_burst
    pub cb_failure_threshold : IsInt64 c.cb_failure_threshold
    pub cb_reset_timeout_sec : IsInt64 c.cb_reset_timeout_sec
    pub database_url : c.database_url ≢ ""
    pub log_level : c.log_level ≢ ""
    pub jwt_secret : c.jwt_secret ≢ ""
    pub redis_url : c.redis_url ≢ ""
    pub jaeger_endpoint : c.jaeger_endpoint ≢ ""
    pub service_name : c.service_name ≢ ""
    pub environment : c.environment ≢ ""

  number : (default n : ℤ) → Prints → IsInt64 n → parsed_or atoi default (itoa n) ≡ n
  number default n prints fits =
      parsed_or_set atoi default (itoa n) n (prints.itoa_set n) (prints.atoi-itoa n fits)

  -- A configuration with no empty text and with numbers of 64 bits, written to the environment, is what Load reads back: every
  -- variable sets its own field and no other.
  pub load-variables :
      (c : Config) → Prints → IsPrintable c → load atoi parse_bool (getenv (variables c)) ≡ c
  unfolding load getenv lookup
  load-variables c prints set = rw (
    number _ c.port prints set.port,
    number _ c.rate_limit_rpm prints set.rate_limit_rpm,
    number _ c.rate_limit_burst prints set.rate_limit_burst,
    number _ c.cb_failure_threshold prints set.cb_failure_threshold,
    number _ c.cb_reset_timeout_sec prints set.cb_reset_timeout_sec,
    text_or_set _ c.database_url set.database_url,
    text_or_set _ c.log_level set.log_level,
    text_or_set _ c.jwt_secret set.jwt_secret,
    text_or_set _ c.redis_url set.redis_url,
    text_or_set _ c.jaeger_endpoint set.jaeger_endpoint,
    text_or_set _ c.service_name set.service_name,
    text_or_set _ c.environment set.environment,
    parsed_or_set parse_bool _ _ c.tracing_enabled (prints.format_bool_set c.tracing_enabled)
        (prints.parse_bool-format_bool c.tracing_enabled),
  )

  -- Every number fits its field.
  pub record Fits (c : Config) : Type 0 where
    pub port : IsInt64 c.port
    pub rate_limit_rpm : IsInt64 c.rate_limit_rpm
    pub rate_limit_burst : IsInt64 c.rate_limit_burst
    pub cb_failure_threshold : IsInt64 c.cb_failure_threshold
    pub cb_reset_timeout_sec : IsInt64 c.cb_reset_timeout_sec
