-- ===== src/Examples/Messages.antt =====
-- Ids, batches, errors and bodies.
use haprovider.Prelude.{◌≡◌, refl, [], ◌∷◌, map, none, some, all, ℤ, pos, if◌then◌else◌, text}
use haprovider.Prelude.Outcome.{done, ◌>>=◌, deref_all}
use haprovider.Rpc.Message.{Request, Response}
use haprovider.Core.Provider.{Provider, fresh_provider}
use haprovider.Core.Endpoint.{Endpoint, Kind, fresh_endpoint, get_max_response_size}
use haprovider.Chain.{bitcoin}
use haprovider.Chain.Reject.{reject_disallowed, rejection}
use haprovider.Chain.Reject.Whole.{allowed, reject_disallowed-whole}
use haprovider.Examples.Codec.{codec, ask, answer}

abbrev with_null : Response
with_null = record (answer (text "1") (text "7")) { error = text "null" }

abbrev first : Request
first = ask (text "1") (text "eth_call")

abbrev second : Request
second = ask (text "2") (text "eth_chainId")

reject_disallowed-whole_example :
    reject_disallowed codec (some bitcoin) (some first ∷ some second ∷ []) ≡ (
      deref_all (some first ∷ some second ∷ []) >>= λ reqs.
      done (if all (allowed bitcoin) reqs then none else some (map (rejection codec bitcoin) reqs)))
reject_disallowed-whole_example =
    reject_disallowed-whole codec bitcoin (some first ∷ some second ∷ [])

abbrev sized : ℤ → Endpoint
sized n = record (fresh_endpoint (text "eth") Kind.eth) { max_response_size = some n }

small_limit : get_max_response_size (sized (pos 4)) ≡ pos 4
unfolding get_max_response_size
small_limit = refl

abbrev node : Provider
node = fresh_provider (text "node") (text "http://a") []
