-- ===== src/Ws/Pump/Upstream.antt =====
-- What the proxy does with a message from the provider (pumpProvider of internal/ws/ws.go).
use haprovider.Prelude.{ℕ, ◌≡◌, ◌≢◌, none, refl, Bool, true, false, [], ◌∷◌, some, Text, arith}
use haprovider.Prelude.Outcome.{done}
use haprovider.Rpc.Error.{Error}
use haprovider.Rpc.Message.{Response}
use haprovider.Rpc.Json.{Json}
use haprovider.Rpc.Batch.{ok, decode_response}
use haprovider.Core.Provider.{mark_unhealthy, mark_method_unsupported}
use haprovider.Chain.{Chain}
use haprovider.Httpx.Health.{SameHealth}
use haprovider.Failover.Visit.{Meaning, for_client, unsupported, elsewhere, fault, classify}
use haprovider.Failover.Visit.Total.{classify-done}
use haprovider.Ws.Pump.{
  to_client, close_proxy, close_client, close_provider, service_restart, try_again_later, Link,
  Heard, heard, if_client, on_response, on_decoded, settled, method_of, provider_message,
}

-- The response goes to the client first. A fault ends the pump: the provider is marked unhealthy with it,
-- the proxy is closed, and so are the connections to the client and to the provider. A response that is
-- none leaves the health of the provider alone, and nothing more is done; the pump goes on if the
-- response could be handed over.
pub data IsForwarded (taken : Bool) (l : Link) (res : Response) (now : ℕ) (h : Heard)
    : Meaning → Type 0 where
  faulty :
      (e : Error)
      → h.acts
        ≡ to_client res
          ∷ close_proxy e
          ∷ close_client service_restart (some e)
          ∷ close_provider try_again_later none
          ∷ []
      → h.goes_on ≡ false
      → h.link.provider ≡ mark_unhealthy l.provider e now
      → h.link.provider.online ≡ false
      → IsForwarded taken l res now h (fault e)
  passed_on :
      (m : Meaning)
      → ((e : Error) → m ≢ fault e)
      → h.acts ≡ to_client res ∷ []
      → h.goes_on ≡ taken
      → SameHealth l.provider h.link.provider
      → IsForwarded taken l res now h m

heard-IsForwarded :
    (taken : Bool) (l k : Link) (res : Response) (method : Text) (now : ℕ) (m : Meaning)
    → k.provider ≡ l.provider
    → (h : Heard) × (heard true taken k res method now m ≡ done h) × IsForwarded taken l res now h m
unfolding heard if_client mark_method_unsupported mark_unhealthy
heard-IsForwarded taken l k res method now for_client same =
    (_, refl, passed_on for_client (λ e h. cc) refl refl (ground arith))
heard-IsForwarded taken l k res method now unsupported same =
    (_, refl, passed_on unsupported (λ e h. cc) refl refl (ground arith))
heard-IsForwarded taken l k res method now elsewhere same =
    (_, refl, passed_on elsewhere (λ e h. cc) refl refl (ground arith))
heard-IsForwarded taken l k res method now (fault e) same =
    (_, refl, faulty e refl refl (rw same refl) (ground arith))

module _ (json : Json) where
  -- For an endpoint of a known kind, once the client is connected, each response of the provider that
  -- decodes is handed to the client first. If its error is a fault for the chain, then the provider
  -- ends offline, and the proxy and both connections are closed. If it is none, nothing else is done
  -- and the health of the provider is as it was; the pump goes on unless the response could not be
  -- handed over.
  pub provider_message-IsForwarded :
      (c : Chain) (taken : Bool) (l : Link) (message : Text) (now : ℕ) (res : Response)
      → decode_response json message ≡ ok res
      → (m : Meaning) × (h : Heard) × (classify json (some c) res ≡ done m)
        × (provider_message json (some c) true taken l message now ≡ done h)
        × IsForwarded taken l res now h m
  unfolding provider_message on_decoded on_response settled
  provider_message-IsForwarded c taken l message now res decodes =
      let (m, means) = classify-done json c res in
      let (h, runs, forwarded) =
        heard-IsForwarded taken l (settled json l res) res (method_of json l res) now m refl in
      (m, h, means, rw (decodes, means) runs, forwarded)

  -- A response that is no error for the chain is handed to the client, and nothing else is done.
  pub provider_message-passed_on :
      (c : Chain) (taken : Bool) (l : Link) (message : Text) (now : ℕ) (res : Response)
      → decode_response json message ≡ ok res
      → classify json (some c) res ≡ done for_client
      → (k : Link) × (provider_message json (some c) true taken l message now
          ≡ done (record { link = k; acts = to_client res ∷ []; goes_on = taken }))
  unfolding provider_message on_decoded on_response heard
  provider_message-passed_on c taken l message now res decodes fine =
      (settled json l res, rw (decodes, fine) refl)
