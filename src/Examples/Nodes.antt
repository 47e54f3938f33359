-- ===== src/Examples/Nodes.antt =====
-- Nodes that pass the health check of their chain.
use haprovider.Prelude.{
  ◌≡◌, refl, true, false, [], ◌∷◌, ◌++◌, ◌-◌, ◌==◌, if◌then◌else◌, take, length, Option, none, some,
  Text, text, decimal, insert, inr, arith, ◌+◌, ◌<◌, ◌^◌,
}
use haprovider.Prelude.Outcome.{done, panicked}
use haprovider.Rpc.Id.{id_string, unmarshal_id}
use haprovider.Rpc.Message.{is_error}
use haprovider.Rpc.Json.{Json}
use haprovider.Rpc.Batch.{
  BatchResponse, ok, get_response_by_id, decode_batch_response, unmarshal_batch_response,
}
use haprovider.Core.NodeInfo.{NodeInfo}
use haprovider.Core.Endpoint.{
  Endpoint, Kind, fresh_endpoint, get_max_response_size, set_chain_id, observe_block,
}
use haprovider.Core.Provider.{
  Provider, fresh_provider, mark_healthy, set_client_version, set_highest_block,
}
use haprovider.Httpx.{Upstream, reply, send_rpc_batch_request, read_upstream_body}
use haprovider.Chain.{new}
use haprovider.Chain.Hex.{parse_hex_number}
use haprovider.Chain.Nodes.{report}
use haprovider.Chain.Nodes.Ethereum
use haprovider.Chain.Nodes.Tron
use haprovider.Chain.Nodes.Bitcoin
use haprovider.Chain.Nodes.Ask.{Decoders, healthcheck}
use haprovider.Chain.Nodes.Solana
use haprovider.Healthcheck.{block_lag_tolerance, run_once, run}
use haprovider.Healthcheck.Tip.{IsGood}
use haprovider.Healthcheck.Full.{cycle}
use haprovider.Healthcheck.Full.Ethereum.{IsChecked, cycle-IsChecked, cycle-recovers}
use haprovider.Examples.Codec.{codec, answer}

abbrev quoted : Text → Text
quoted s = b'"' ∷ s ++ b'"' ∷ []

-- No string has an escape here, and one without quotes stands for itself.
abbrev unquoted : Text → Option Text
unquoted [] = none
unquoted (c ∷ s) = some (if c == b'"' then take (length s - 1) s else c ∷ s)

abbrev plain : Json
plain = record codec { string_of = unquoted; of_string = quoted }

abbrev of_eth : Ethereum.Decoder
of_eth = record { to_bool = λ b. some false; to_syncing = λ b. none }

abbrev eth_answers : BatchResponse
eth_answers = record {
  responses =
      some (answer (quoted (text "ha_clientVersion")) (text "geth"))
      ∷ some (answer (quoted (text "ha_chainId")) (text "0x1"))
      ∷ some (answer (quoted (text "ha_height")) (text "0x10"))
      ∷ some (answer (quoted (text "ha_syncing")) (text "false"))
      ∷ [];
  is_batch = true;
}

abbrev eth_node : NodeInfo
eth_node = record { client_version = text "geth"; chain_id = text "1"; block_height = 16 }

eth_passes : Ethereum.node_info plain of_eth eth_answers ≡ done (ok eth_node)
unfolding Ethereum.node_info is_error get_response_by_id id_string parse_hex_number
    Ethereum.check_syncing decimal
eth_passes = refl

abbrev of_sol : Solana.Decoder
of_sol = record { to_uint = λ b. none; to_version = λ b. none }

abbrev of_btc : Bitcoin.Decoder
of_btc = record {
  to_blockchain_info = λ b. some (record { blocks = 5; headers = 5; progress = [] });
  to_subversion = λ b. some b;
  to_loaded = λ b. some true;
}

abbrev btc_answers : BatchResponse
btc_answers = record {
  responses =
      some (answer (text "getblockchaininfo") (text "{}"))
      ∷ some (answer (text "getnetworkinfo") (text "core"))
      ∷ some (answer (text "getblockhash") (text "00"))
      ∷ some (answer (text "getmempoolinfo") (text "{}"))
      ∷ [];
  is_batch = true;
}

abbrev btc_node : NodeInfo
btc_node = record { client_version = text "core"; chain_id = []; block_height = 5 }

btc_passes : Bitcoin.node_info plain of_btc btc_answers ≡ done (ok btc_node)
unfolding Bitcoin.node_info report get_response_by_id id_string is_error
btc_passes = refl

-- The node answers each batch with these answers.
abbrev answering : Json
answering = record plain { responses_of = λ b. some eth_answers.responses }

abbrev node : Upstream
node url body = reply 200 [] (text "[]") none

abbrev mainnet : Endpoint
mainnet = record (fresh_endpoint (text "eth") Kind.eth) { chain_id = text "1"; highest_block = 20 }

abbrev down : Provider
down = fresh_provider (text "a") (text "https://a") []

abbrev up : Provider
up = record down {
  online = true;
  last_state_change = 6;
  highest_block = 16;
  client_version = text "geth";
  versions_seen = (text "geth", 6) ∷ [];
}

abbrev decoders : Decoders
decoders = record { of_ethereum = of_eth; of_solana = of_sol; of_bitcoin = of_btc }

cycle-IsChecked_example : IsChecked answering decoders (λ d. []) mainnet node down 5
unfolding cycle run_once run healthcheck send_rpc_batch_request read_upstream_body
    get_max_response_size decode_batch_response unmarshal_batch_response unmarshal_id new
    Ethereum.node_info is_error get_response_by_id id_string parse_hex_number Ethereum.check_syncing
    decimal set_chain_id observe_block mark_healthy set_client_version set_highest_block insert
cycle-IsChecked_example =
    cycle-IsChecked answering decoders (λ d. []) mainnet node down up mainnet 60 5 6 60 refl refl
      refl

answered :
    send_rpc_batch_request answering
      (λ d. [])
      mainnet
      node
      down
      (Ethereum.requests answering of_eth)
      true
      5
    ≡ done (down, ok eth_answers)
unfolding send_rpc_batch_request read_upstream_body get_max_response_size decode_batch_response
    unmarshal_batch_response unmarshal_id is_error Ethereum.requests
answered = refl

recognised : Ethereum.node_info answering of_eth eth_answers ≡ done (ok eth_node)
unfolding Ethereum.node_info is_error get_response_by_id id_string parse_hex_number
    Ethereum.check_syncing decimal
recognised = refl

in_time : IsGood mainnet eth_node
unfolding block_lag_tolerance
in_time = record { same_chain = inr refl; in_time = omega arith }

within : 16 + block_lag_tolerance mainnet < 2 ^ 64
unfolding block_lag_tolerance
within = omega arith

cycle-recovers_example :
    (q : Provider) × (f : Endpoint) × (cycle answering decoders (λ d. []) mainnet node 60 5 6 down
      ≡ done (q, f, 60))
    × (q.online ≡ true)
cycle-recovers_example =
    cycle-recovers answering decoders (λ d. []) mainnet node down down eth_answers eth_node 60 5 6
      refl answered recognised within in_time

abbrev tron_endpoint : Endpoint
tron_endpoint = record (fresh_endpoint (text "tron") Kind.tron) { chain_id = text "mainnet" }

is_mainnet : Tron.network 728126428 ≡ ok (text "mainnet")
unfolding Tron.network
is_mainnet = refl

-- A null in the array of responses
abbrev null_answer : BatchResponse
null_answer = record { responses = none ∷ []; is_batch = true }

null_panics : Ethereum.node_info plain of_eth null_answer ≡ panicked
unfolding Ethereum.node_info
null_panics = refl
