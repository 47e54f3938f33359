-- ===== src/Examples/Endpoints.antt =====
-- Chain ids, keys and tips of endpoints.
use haprovider.Prelude.{List, [], ◌∷◌, Text, text}
use haprovider.Core.Endpoint.{Endpoint, Kind, fresh_endpoint}

abbrev mainnet : Endpoint
mainnet = fresh_endpoint (text "mainnet") Kind.eth

abbrev reported : List Text
reported = text "1" ∷ text "137" ∷ text "1" ∷ []
