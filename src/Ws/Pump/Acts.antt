-- ===== src/Ws/Pump/Acts.antt =====
-- Tests on the acts of the goroutines of a proxy (internal/ws/ws.go).
use haprovider.Prelude.{Bool, true, false, ◌||◌, List, [], ◌∷◌}
use haprovider.Ws.Pump.{Act, to_provider, close_proxy, close_client, close_provider}

abbrev pub closes_proxy : Act → Bool
closes_proxy (close_proxy e) = true
closes_proxy _ = false

abbrev pub closes_client : Act → Bool
closes_client (close_client code e) = true
closes_client _ = false

abbrev pub closes_provider : Act → Bool
closes_provider (close_provider code e) = true
closes_provider _ = false

abbrev pub is_close : Act → Bool
is_close a = closes_proxy a || (closes_client a || closes_provider a)

abbrev pub is_request : Act → Bool
is_request (to_provider r) = true
is_request _ = false

abbrev pub will : (Act → Bool) → List Act → Bool
will test [] = false
will test (a ∷ acts) = test a || will test acts
