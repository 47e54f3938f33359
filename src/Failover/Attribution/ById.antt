-- ===== src/Failover/Attribution/ById.antt =====
-- A response is attributed to the request whose id it bears (responseMethods, internal/http.go).
use haprovider.Prelude.{
  ◌≡◌, refl, true, false, not, List, [], ◌∷◌, none, some, is_empty, if◌then◌else◌, Text, text_eq,
  text_eq_iff, lookup, lookup-insert, arith,
}
use haprovider.Rpc.Message.{Request, Response}
use haprovider.Rpc.Json.{Json}
use haprovider.Failover.Attribution.{
  Index, index_one, is_dup, method_of, get_id, index, empty_index, attribute, response_methods,
}

-- What the index knows of an id, given the methods of the requests that bear it, the last one first.
record Knows (ix : Index) (id : Text) (ms : List Text) : Type 0 where
  last : lookup id ix.by_id ≡ (elim ms [ [] ↦ none | m ∷ rest ↦ some m ])
  several : is_dup ix id ≡ (elim ms [ [] ↦ false | m ∷ rest ↦ not (is_empty rest) ])

-- The methods of the requests with an id, behind those that are known.
module _ (json : Json) where
  pub owners : Text → List Request → List Text → List Text
  owners id [] known = known
  owners id (r ∷ rs) known =
      owners id rs (if text_eq id (get_id json r.id) then r.method ∷ known else known)

  -- The method of the one request that bears the id, if it is not empty, and otherwise the one at
  -- the same position.
  abbrev pub unique_or : Text → List Text → Text → Text
  unique_or id (m ∷ []) by_position = if is_empty id then by_position else m
  unique_or id _ by_position = by_position

  pub expected : List Request → List Request → List Response → List Text
  expected all reqs [] = []
  expected all [] (res ∷ ress) = []
  expected all (req ∷ reqs) (res ∷ ress) =
      unique_or (get_id json res.id) (owners (get_id json res.id) all []) req.method
      ∷ expected all reqs ress

index_one-Knows :
    (ix : Index) (id i m : Text) (ms : List Text)
    → Knows ix id ms
    → Knows (index_one i m ix) id (if text_eq id i then m ∷ ms else ms)
unfolding index_one
index_one-Knows ix id i m [] k = ground (
  arith,
  text_eq_iff id i,
  text_eq_iff i id,
  lookup-insert i id m ix.by_id,
  lookup-insert i id true ix.dup,
)
index_one-Knows ix id i m (n ∷ ms) k = ground (
  arith,
  text_eq_iff id i,
  text_eq_iff i id,
  lookup-insert i id m ix.by_id,
  lookup-insert i id true ix.dup,
)

module _ (json : Json) where
  index-Knows :
      (ix : Index) (id : Text) (rs : List Request) (known : List Text)
      → Knows ix id known
      → Knows (index json rs ix) id (owners json id rs known)
  unfolding index owners
  index-Knows ix id [] known k = k
  index-Knows ix id (r ∷ rs) known k =
      index-Knows (index_one (get_id json r.id) r.method ix) id rs _
        (index_one-Knows ix id (get_id json r.id) r.method known k)

  method_of-unique_or :
      (ix : Index) (id by_position : Text) (ms : List Text)
      → Knows ix id ms
      → method_of ix id by_position ≡ unique_or json id ms by_position
  unfolding method_of
  method_of-unique_or ix id by_position [] k = ground (arith, k.last)
  method_of-unique_or ix id by_position (m ∷ []) k = ground (arith, k.last, k.several)
  method_of-unique_or ix id by_position (m ∷ n ∷ ms) k = ground (arith, k.last, k.several)

  attribute-expected :
      (all reqs : List Request) (ress : List Response)
      → attribute json (index json all (empty_index json)) reqs ress ≡ expected json all reqs ress
  unfolding attribute expected
  attribute-expected all reqs [] = refl
  attribute-expected all [] (res ∷ ress) = refl
  attribute-expected all (req ∷ reqs) (res ∷ ress) =
      let id = get_id json res.id in
      let here =
        method_of-unique_or (index json all (empty_index json)) id req.method
          (owners json id all [])
          (index-Knows (empty_index json) id all [] (record { last = refl; several = refl })) in
      ground (arith, here, attribute-expected all reqs ress)

  -- In a batch each response is attributed to the one request that bears its id, in whatever order
  -- the responses came; a response whose id is empty, unknown or borne by several requests is
  -- attributed to the request at its position.
  pub response_methods-expected :
      (reqs : List Request) (ress : List Response)
      → response_methods json reqs true ress ≡ expected json reqs reqs ress
  unfolding response_methods
  response_methods-expected reqs ress = attribute-expected reqs reqs ress
