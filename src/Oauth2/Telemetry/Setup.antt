-- ===== src/Oauth2/Telemetry/Setup.antt =====
-- The setting up of the telemetry, from pkg/oauth2/telemetry.go.
use go_oauth_client_credenti.Common.{
  ◌≡◌, refl, String, Bool, Option, none, some, List, [], ◌∷◌, ◌++◌,
}
use go_oauth_client_credenti.Oauth2.Error.{Error}
use go_oauth_client_credenti.Oauth2.Telemetry.{Telemetry}

abbrev pub instrumentation_name : String
instrumentation_name = "github.com/shjtmy/go-oauth-client-credentials-grant/pkg/oauth2"

-- What is called of OpenTelemetry and `slog`. An instrument is `none` where nil is returned; an
-- error may come with it.
pub record Otel : Type 1 where
  pub Tracer : Type 0
  pub Meter : Type 0
  pub Logger : Type 0
  pub Counter : Type 0
  pub Histogram : Type 0
  pub tracer : String → Tracer
  pub meter : String → Meter
  pub default_logger : Logger
  pub int64_counter : Meter → (name description unit : String) → Option Counter × Option Error
  pub float64_histogram : Meter → (name description unit : String) → Option Histogram × Option Error

module _ (O : Otel) where
  -- The struct `Telemetry`
  pub record Instruments : Type 0 where
    pub tracer : O.Tracer
    pub meter : O.Meter
    pub logger : O.Logger
    pub token_requests_total : Option O.Counter
    pub auth_checks_total : Option O.Counter
    pub token_duration_secs : Option O.Histogram

  -- An option, with the argument that may be nil.
  pub data TelemetryOption : Type 0 where
    with_tracer : Option O.Tracer → TelemetryOption
    with_meter : Option O.Meter → TelemetryOption
    with_logger : Option O.Logger → TelemetryOption

  unfoldable pub apply_option : TelemetryOption → Instruments → Instruments
  apply_option (with_tracer none) t = t
  apply_option (with_tracer (some tracer)) t = record t { tracer = tracer }
  apply_option (with_meter none) t = t
  apply_option (with_meter (some meter)) t = record t { meter = meter }
  apply_option (with_logger none) t = t
  apply_option (with_logger (some logger)) t = record t { logger = logger }

  unfoldable pub apply_options : List TelemetryOption → Instruments → Instruments
  unfolding apply_option
  apply_options [] t = t
  apply_options (opt ∷ opts) t = apply_options opts (apply_option opt t)

  -- `slog.Warn`, if there is an error.
  abbrev warn : String → Option Error → List (String × Error)
  warn text none = []
  warn text (some e) = (text, e) ∷ []

  abbrev base : Instruments
  base = record {
    tracer = O.tracer instrumentation_name;
    meter = O.meter instrumentation_name;
    logger = O.default_logger;
    token_requests_total = none;
    auth_checks_total = none;
    token_duration_secs = none;
  }

  -- `NewTelemetry`, and what it warns of.
  unfoldable pub new_telemetry : List TelemetryOption → Instruments × List (String × Error)
  unfolding apply_options
  new_telemetry opts =
      let t = apply_options opts base in
      let (requests, e1) =
        O.int64_counter t.meter "oauth2_token_requests_total"
          "Total number of OAuth 2.0 token issuance requests" "{request}" in
      let (checks, e2) =
        O.int64_counter t.meter "oauth2_auth_checks_total"
          "Total number of OAuth 2.0 authorization checks" "{check}" in
      let (durations, e3) =
        O.float64_histogram t.meter "oauth2_token_duration_seconds"
          "Latency of OAuth 2.0 operations in seconds" "s" in
      (
        record t {
          token_requests_total = requests;
          auth_checks_total = checks;
          token_duration_secs = durations;
        },
        warn "Failed to create oauth2_token_requests_total metric" e1
            ++ warn "Failed to create oauth2_auth_checks_total metric" e2
            ++ warn "Failed to create oauth2_token_duration_seconds metric" e3,
      )

  abbrev begun : {A : Type 0} {B : Type 0} → B → Option A → Option B
  begun b none = none
  begun b (some _) = some b

  -- What the recording starts from, given whether the spans of the contexts are recording.
  abbrev pub recorder : Instruments → Bool → Telemetry
  recorder t is_recording = record {
    token_requests_total = begun [] t.token_requests_total;
    auth_checks_total = begun [] t.auth_checks_total;
    token_durations = begun 0 t.token_duration_secs;
    is_recording = is_recording;
    spans = [];
    log = [];
  }

  -- The last of the given values that is there, or else the first one.
  unfoldable pub last_given : {A : Type 0} → A → List (Option A) → A
  last_given a [] = a
  last_given a (none ∷ given) = last_given a given
  last_given a (some b ∷ given) = last_given b given

  abbrev pub meter_of : TelemetryOption → Option O.Meter
  meter_of (with_meter meter) = meter
  meter_of _ = none

  -- The meters that the options name, in their order.
  unfoldable pub meters : List TelemetryOption → List (Option O.Meter)
  meters [] = []
  meters (opt ∷ opts) = meter_of opt ∷ meters opts

  apply_options-meter :
      (opts : List TelemetryOption) (t : Instruments)
      → (apply_options opts t).meter ≡ last_given t.meter (meters opts)
  unfolding apply_options last_given meters apply_option
  apply_options-meter [] t = refl
  apply_options-meter (with_tracer none ∷ opts) t = apply_options-meter opts t
  apply_options-meter (with_tracer (some x) ∷ opts) t =
      apply_options-meter opts (record t { tracer = x })
  apply_options-meter (with_meter none ∷ opts) t = apply_options-meter opts t
  apply_options-meter (with_meter (some x) ∷ opts) t =
      apply_options-meter opts (record t { meter = x })
  apply_options-meter (with_logger none ∷ opts) t = apply_options-meter opts t
  apply_options-meter (with_logger (some x) ∷ opts) t =
      apply_options-meter opts (record t { logger = x })

  -- The counters of a new telemetry are made by the last meter that an option gives, or by the one
  -- of the global provider if none does, whatever the order of the options; a nil meter counts for
  -- nothing.
  pub new_telemetry-counters :
      (opts : List TelemetryOption)
      → let t = (new_telemetry opts).0 in
        let meter = last_given (O.meter instrumentation_name) (meters opts) in
        (t.meter ≡ meter)
        × (t.token_requests_total
            ≡ (O.int64_counter meter "oauth2_token_requests_total"
                "Total number of OAuth 2.0 token issuance requests" "{request}").0)
        × (t.auth_checks_total
            ≡ (O.int64_counter meter "oauth2_auth_checks_total"
                "Total number of OAuth 2.0 authorization checks" "{check}").0)
  unfolding new_telemetry
  new_telemetry-counters opts =
      let chosen = apply_options-meter opts base in (chosen, rw chosen refl, rw chosen refl)
