-- ===== src/Rpc/Message/Shapes.antt =====
-- The shape a response is sent in (internal/rpc/response.go).
use haprovider.Prelude.{◌≡◌, ◌≢◌, false, [], text, text_eq_iff, if◌then◌else◌, arith}
use haprovider.Rpc.Message.{Response, error_response, success_response, to_wire, is_error}

-- A response that is no notification and whose error is not the literal null is sent as an error
-- exactly when `is_error` says so, with its id and its error or its result unchanged.
pub to_wire-is_error :
    (r : Response)
    → r.method ≡ []
    → r.error ≢ text "null"
    → to_wire r ≡ (
        if is_error r
        then error_response r.version r.id r.error
        else success_response r.version r.id r.result)
unfolding to_wire is_error
to_wire-is_error r m h = ground (arith, text_eq_iff r.error (text "null"))

-- A success that carries the member "error": null counts as no error, and yet is sent in the error
-- shape, which has no place for its result.
pub to_wire-null_error :
    (r : Response)
    → r.method ≡ []
    → r.error ≡ text "null"
    → (is_error r ≡ false) × (to_wire r ≡ error_response r.version r.id (text "null"))
unfolding to_wire is_error text
to_wire-null_error r m h = ground (arith, text_eq_iff r.error (text "null"))
