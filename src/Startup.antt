-- ===== src/Startup.antt =====
-- The settings that main of cmd/haprovider/main.go starts with: flags, environment and configuration.
-- time.ParseDuration is a parameter; log.Fatalf is an error here.
pub mod Pace
pub mod Round
use haprovider.Prelude.{
  ℕ, zero, suc, Bool, true, false, not, ◌||◌, [], ◌++◌, Option, none, some, ℤ, pos, negsuc,
  if◌then◌else◌, is_empty, Text, text, text_eq,
}
use haprovider.Rpc.Error.{Error, failure}
use haprovider.Rpc.Batch.{Result, ok, err}

-- The flags, and in the same shape what the configuration says
pub record Given : Type 0 where
  pub port : Text
  pub metrics_port : Text
  pub log_level : Text
  pub log_json : Bool
  pub healthcheck_interval : Text
  pub real_ip_header : Text

pub data Level : Type 0 where
  debug info warn error : Level

pub record Settings : Type 0 where
  pub port : Text
  pub metrics_port : Text
  pub level : Level
  pub log_json : Bool
  pub interval : ℕ
  pub real_ip_header : Text

-- The flags if none is given
unfoldable pub defaults : Given
unfolding text
defaults = record {
  port = text "127.0.0.1:8080";
  metrics_port = [];
  log_level = text "info";
  log_json = false;
  healthcheck_interval = text "30s";
  real_ip_header = [];
}

-- A text setting: the environment and then the configuration are asked if the flag has its default.
unfoldable pub chosen : Text → Text → Text → Text → Text
unfolding text_eq
chosen default flag env configured =
    if text_eq flag default
    then if not (is_empty env) then env else if not (is_empty configured) then configured else flag
    else flag

unfoldable pub level_of : Text → Level
unfolding text text_eq
level_of name =
    if text_eq name (text "debug")
    then debug
    else if text_eq name (text "warn")
    then warn
    else if text_eq name (text "error")
    then error
    else info

-- The check on the parsed interval: it is above 0.
checked_interval : Text → Option ℤ → Result ℕ
unfolding text
checked_interval given none = err (failure (text "invalid healthcheck interval " ++ given))
checked_interval given (some (negsuc n)) =
    err (failure (text "healthcheck interval must be > 0, got " ++ given))
checked_interval given (some (pos zero)) =
    err (failure (text "healthcheck interval must be > 0, got " ++ given))
checked_interval given (some (pos (suc n))) = ok (suc n)

module _ (parse_duration : Text → Option ℤ) (getenv : Text → Text) where
  with_interval : Given → Given → Result ℕ → Result Settings
  unfolding chosen level_of text text_eq defaults
  with_interval flags config (err e) = err e
  with_interval flags config (ok interval) = ok (record {
    port = chosen defaults.port flags.port (getenv (text "HA_PORT")) config.port;
    metrics_port =
        chosen defaults.metrics_port flags.metrics_port (getenv (text "HA_METRICS_PORT"))
          config.metrics_port;
    level =
        level_of (
          chosen defaults.log_level flags.log_level (getenv (text "HA_LOG_LEVEL"))
            config.log_level);
    log_json =
        flags.log_json || (text_eq (getenv (text "HA_LOG_JSON")) (text "true") || config.log_json);
    interval = interval;
    real_ip_header =
        chosen defaults.real_ip_header flags.real_ip_header (getenv (text "HA_REAL_IP_HEADER"))
          config.real_ip_header;
  })

  -- The settings, for the flags and the configuration
  unfoldable pub settings : Given → Given → Result Settings
  unfolding with_interval checked_interval chosen text defaults
  settings flags config =
      let given =
        chosen defaults.healthcheck_interval flags.healthcheck_interval
          (getenv (text "HA_HEALTHCHECK_INTERVAL")) config.healthcheck_interval in
      with_interval flags config (checked_interval given (parse_duration given))
