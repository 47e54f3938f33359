-- ===== src/Examples/Codec.antt =====
-- A small JSON codec for the examples: it knows a few texts, by their first bytes.
use haprovider.Prelude.{
  List, [], ◌∷◌, map, Option, none, some, minus, ◌==◌, if◌then◌else◌, Text, text,
}
use haprovider.Rpc.Message.{Request, Response}
use haprovider.Rpc.Batch.Total.{IsFilled}
use haprovider.Rpc.Json.{Json}

abbrev pub ask : Text → Text → Request
ask id method = record { version = text "2.0"; id = id; method = method; params = [] }

abbrev pub answer : Text → Text → Response
answer id result = record {
  version = text "2.0";
  id = id;
  result = result;
  method = [];
  params = [];
  error = [];
}

abbrev pub refusal : Text → Response
refusal id = record {
  version = text "2.0";
  id = id;
  result = [];
  method = [];
  params = [];
  error = text "{-}";
}

abbrev pub calls : List Request
calls = ask (text "1") (text "eth_call") ∷ ask (text "2") (text "eth_chainId") ∷ []

abbrev pub first_call : Request
first_call = ask (text "1") (text "eth_call")

abbrev whole : Text → Option Text
whole [] = none
whole (c ∷ b) = some (c ∷ b)

-- "{!" is an error, any other object the answer to request 1.
abbrev one_response : Text → Option Response
one_response (c ∷ d ∷ b) =
    some (if d == b'!' then refusal (text "1") else answer (text "1") (text "7"))
one_response b = some (answer (text "1") (text "7"))

abbrev pub codec : Json
codec = record {
  value_of = whole;
  request_of = λ b. some first_call;
  requests_of = λ b. some (map some calls);
  response_of = one_response;
  responses_of = λ b. some [];
  error_of = λ b. some (minus 32601, text "no");
  string_of = λ b. none;
  of_string = λ s. s;
  request_text = λ r. some (b'{' ∷ []);
  requests_text = λ rs. some (b'[' ∷ []);
  wire_text = λ w. some (b'{' ∷ []);
  wires_text = λ ws. some (b'[' ∷ []);
  error_text = λ c m. m;
}

pub codec-IsFilled : IsFilled codec
codec-IsFilled [] e = cc
codec-IsFilled (c ∷ b) e = cc
