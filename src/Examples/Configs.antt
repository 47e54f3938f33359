-- ===== src/Examples/Configs.antt =====
-- A configuration with one endpoint.
use haprovider.Prelude.{
  Text, map, ◌≡◌, refl, false, pos, [], ◌∷◌, some, text, text_eq, if◌then◌else◌,
}
use haprovider.Rpc.Batch.{ok}
use haprovider.Startup.{Given, Settings, info, defaults, chosen, level_of, settings}
use haprovider.Core.Provider.{fresh_provider}
use haprovider.Core.Endpoint.{Kind, fresh_endpoint}
use haprovider.Config.{System, Section, load_config}
use haprovider.Config.Loaded.{Pairs, OnOk, IsLoaded, load_config-IsLoaded}

-- Only $KEY is set; every text refers to it, and every URL parses.
abbrev sys : System
sys = record {
  getenv = λ name. if text_eq name (text "KEY") then text "secret" else [];
  expand = λ env t. t;
  references = λ t. text "KEY" ∷ [];
  parse_url = λ url. some (text "https", text "node.example");
  redacted = λ url. text "[redacted]";
}

abbrev section : Section
section = record {
  endpoint = fresh_endpoint [] (Kind.unknown []);
  providers =
      record { provider = fresh_provider [] (text "https://node.example/$KEY") []; headers = [] }
      ∷ [];
}

load_config-IsLoaded_example :
    OnOk
      (Pairs
        (λ (given loaded : Text × Section).
          (loaded.0 ≡ given.0)
          × IsLoaded sys (map (λ k. sys.expand sys.getenv k) (text "$KEY" ∷ [])) given.1 loaded.1)
        ((text "eth", section) ∷ []))
      (load_config sys (text "$KEY" ∷ []) ((text "eth", section) ∷ []))
load_config-IsLoaded_example =
    load_config-IsLoaded sys (text "$KEY" ∷ []) ((text "eth", section) ∷ [])

abbrev unset : Given
unset = record {
  port = [];
  metrics_port = [];
  log_level = [];
  log_json = false;
  healthcheck_interval = [];
  real_ip_header = [];
}

abbrev fine : Settings
fine = record {
  port = text "127.0.0.1:8080";
  metrics_port = [];
  level = info;
  log_json = false;
  interval = 30000000000;
  real_ip_header = [];
}

-- No variable is set, and every duration is half a minute.
starts : settings (λ t. some (pos 30000000000)) (λ name. []) defaults unset ≡ ok fine
unfolding settings chosen level_of defaults text text_eq
starts = refl
