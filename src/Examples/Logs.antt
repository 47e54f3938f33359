-- ===== src/Examples/Logs.antt =====
-- What is left of URLs in a log.
use haprovider.Prelude.{◌≡◌, refl, [], ◌++◌, Option, some, Text, text, contains, has_prefix}
use haprovider.Redact.{Url, Value, error_value, string_value, pieces, redact_attr}
use haprovider.Redact.Hidden.{SameValues, redact_attr-SameValues}

-- A url.Parse that reads one node, and the text as the path
abbrev node : Text → Option Url
node s = some (record {
  scheme = text "https";
  user = [];
  host = text "node.example";
  path = s;
  query = [];
  fragment = [];
})

-- An error of net/http, with the URL in quotes
abbrev with_key : Text → Value
with_key key = error_value (text "Get \"https://node.example/v3/" ++ (key ++ text "\""))

same_host : SameValues node (with_key (text "K1")) (with_key (text "K2"))
unfolding pieces contains has_prefix text
same_host = (refl, (refl, (refl, (refl, (refl, ((refl, refl), (refl, tt)))))))

redact_attr-SameValues_example :
    redact_attr node (with_key (text "K1")) ≡ redact_attr node (with_key (text "K2"))
redact_attr-SameValues_example =
    redact_attr-SameValues node (with_key (text "K1")) (with_key (text "K2")) same_host

logged :
    redact_attr node (with_key (text "K1")) ≡ string_value (text "Get \"https://node.example\"")
unfolding redact_attr contains has_prefix text
logged = refl
