-- ===== src/Chain/Methods.antt =====
-- Which methods are coalesced and which are allowed (internal/chain/{eth,solana,tron,btc}).
use haprovider.Prelude.{Bool, true, List, [], ◌∷◌, Text, text, member}
use haprovider.Chain.{Chain, ethereum, solana, tron, bitcoin}

-- The allowlist of internal/chain/eth, which Tron shares
unfoldable pub coalesceable_eth : List Text
unfolding text
coalesceable_eth =
    text "eth_call"
    ∷ text "eth_getBalance"
    ∷ text "eth_getCode"
    ∷ text "eth_getStorageAt"
    ∷ text "eth_getTransactionByHash"
    ∷ text "eth_getTransactionReceipt"
    ∷ text "eth_getBlockByNumber"
    ∷ text "eth_getBlockByHash"
    ∷ text "eth_getBlockReceipts"
    ∷ text "eth_getLogs"
    ∷ text "eth_getTransactionCount"
    ∷ text "eth_estimateGas"
    ∷ text "eth_gasPrice"
    ∷ text "eth_feeHistory"
    ∷ text "eth_maxPriorityFeePerGas"
    ∷ text "eth_blockNumber"
    ∷ text "eth_chainId"
    ∷ text "net_version"
    ∷ text "web3_clientVersion"
    ∷ []

unfoldable pub coalesceable_solana : List Text
unfolding text
coalesceable_solana =
    text "getAccountInfo"
    ∷ text "getMultipleAccounts"
    ∷ text "getBalance"
    ∷ text "getBlock"
    ∷ text "getBlockHeight"
    ∷ text "getSlot"
    ∷ text "getTransaction"
    ∷ text "getSignatureStatuses"
    ∷ text "getLatestBlockhash"
    ∷ text "getEpochInfo"
    ∷ text "getVersion"
    ∷ text "getGenesisHash"
    ∷ text "getHealth"
    ∷ text "getTokenAccountBalance"
    ∷ []

unfoldable pub coalesceable_btc : List Text
unfolding text
coalesceable_btc =
    text "getblock"
    ∷ text "getblockhash"
    ∷ text "getblockheader"
    ∷ text "getblockcount"
    ∷ text "getblockchaininfo"
    ∷ text "getrawtransaction"
    ∷ text "getnetworkinfo"
    ∷ text "getmempoolinfo"
    ∷ text "gettxout"
    ∷ text "estimatesmartfee"
    ∷ []

-- The Bitcoin RPCs that a client may call
unfoldable pub allowed_btc : List Text
unfolding text
allowed_btc =
    text "getbestblockhash"
    ∷ text "getblock"
    ∷ text "getblockchaininfo"
    ∷ text "getblockcount"
    ∷ text "getblockfilter"
    ∷ text "getblockhash"
    ∷ text "getblockheader"
    ∷ text "getblockstats"
    ∷ text "getchaintips"
    ∷ text "getchaintxstats"
    ∷ text "getdeploymentinfo"
    ∷ text "getdifficulty"
    ∷ text "getmempoolancestors"
    ∷ text "getmempooldescendants"
    ∷ text "getmempoolentry"
    ∷ text "getmempoolinfo"
    ∷ text "getrawmempool"
    ∷ text "gettxout"
    ∷ text "gettxoutproof"
    ∷ text "gettxoutsetinfo"
    ∷ text "gettxspendingprevout"
    ∷ text "verifytxoutproof"
    ∷ text "getrawtransaction"
    ∷ text "sendrawtransaction"
    ∷ []

-- Coalesceable
unfoldable pub coalesceable : Chain → Text → Bool
unfolding coalesceable_eth coalesceable_solana coalesceable_btc member
coalesceable ethereum method = member method coalesceable_eth
coalesceable solana method = member method coalesceable_solana
coalesceable tron method = member method coalesceable_eth
coalesceable bitcoin method = member method coalesceable_btc

-- AllowMethod
unfoldable pub allow_method : Chain → Text → Bool
unfolding allowed_btc member
allow_method ethereum method = true
allow_method solana method = true
allow_method tron method = true
allow_method bitcoin method = member method allowed_btc
