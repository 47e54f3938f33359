-- ===== src/Rpc/Error.antt =====
-- internal/rpc/errors.go, and the error values of the other packages that callers tell apart with
-- errors.As and errors.Is. An error that wraps none of these is a `failure` with its message.
use haprovider.Prelude.{pos, ◌++◌, text, join, decimal, ℤ, minus, Text, List, ℕ}

-- rpc.RPCError, less its raw data
pub record RpcError : Type 0 where
  pub code : ℤ
  pub message : Text

pub data Error : Type 0 where
  -- rpc.ErrorRateLimited: the message and RetryAfter in nanoseconds
  rate_limited : Text → ℤ → Error
  -- rpc.MethodNotSupportedError
  method_not_supported : ℤ → Text → Error
  -- rpc.ErrorTryNextProvider
  try_next_provider : Text → Error
  -- httpx.StatusError
  status : ℕ → Error
  -- context.Canceled and context.DeadlineExceeded
  canceled deadline_exceeded : Error
  -- errNoProvidersAvailable, errRequestTooLarge, noProviderForMethodError
  no_providers_available request_too_large : Error
  no_provider_for_method : List Text → Error
  -- rpc.ErrEmptyBatch
  empty_batch : Error
  failure : Text → Error

-- The Error methods; an error of encoding/json is a `failure` with no text.
unfoldable pub error_message : Error → Text
unfolding text join decimal
error_message (rate_limited m d) = text "rate limited: " ++ m
error_message (method_not_supported c m) =
    text "method not supported: rpc " ++ (decimal c ++ (text ": " ++ m))
error_message (try_next_provider m) = text "try next provider: " ++ m
error_message (status code) = text "http " ++ decimal (pos code)
error_message canceled = text "context canceled"
error_message deadline_exceeded = text "context deadline exceeded"
error_message no_providers_available = text "no providers available"
error_message request_too_large = text "request too large"
error_message (no_provider_for_method methods) =
    text "no provider available for method " ++ join (text ", ") methods
error_message empty_batch = text "empty batch"
error_message (failure m) = m

abbrev pub code_parse_error : ℤ
code_parse_error = minus 32700

abbrev pub code_invalid_request : ℤ
code_invalid_request = minus 32600

abbrev pub code_resource_unavailable : ℤ
code_resource_unavailable = minus 32002

abbrev pub code_method_not_found : ℤ
code_method_not_found = minus 32601

abbrev pub code_internal_error : ℤ
code_internal_error = minus 32603

abbrev pub code_no_providers_available : ℤ
code_no_providers_available = minus 39200
