-- ===== src/Failover/Attribution.antt =====
-- responseMethods of internal/http.go: which method a response answers.
pub mod ById
use haprovider.Prelude.{
  Bool, true, false, not, ◌&&◌, List, [], ◌∷◌, none, some, is_empty, if◌then◌else◌, Text, Dict,
  lookup, insert,
}
use haprovider.Rpc.Id.{id_string}
use haprovider.Rpc.Message.{Request, Response}
use haprovider.Rpc.Json.{Json}

-- byID and dup
pub record Index : Type 0 where
  pub by_id : Dict Text
  pub dup : Dict Bool

abbrev seen : Dict Text → Text → Bool
seen m id = elim (lookup id m) [ none ↦ false | some _ ↦ true ]

-- One round of the loop that fills them
index_one : Text → Text → Index → Index
unfolding lookup insert
index_one id method ix = record {
  by_id = insert id method ix.by_id;
  dup = if seen ix.by_id id then insert id true ix.dup else ix.dup;
}

abbrev is_dup : Index → Text → Bool
is_dup ix id = elim (lookup id ix.dup) [ none ↦ false | some b ↦ b ]

-- The method for a response id, or the one at its position
pub method_of : Index → Text → Text → Text
unfolding lookup
method_of ix id by_position = elim (lookup id ix.by_id) [
  | none ↦ by_position
  | some m ↦ if not (is_empty id) && not (is_dup ix id) then m else by_position
]

module _ (json : Json) where
  abbrev pub get_id : Text → Text
  get_id raw = id_string json.string_of raw

  index : List Request → Index → Index
  unfolding index_one
  index [] ix = ix
  index (r ∷ rs) ix = index rs (index_one (get_id r.id) r.method ix)

  abbrev empty_index : Index
  empty_index = record { by_id = []; dup = [] }

  -- The positions of requests and responses go together: both slices have the same length.
  attribute : Index → List Request → List Response → List Text
  unfolding method_of
  attribute ix reqs [] = []
  attribute ix [] (res ∷ ress) = []
  attribute ix (req ∷ reqs) (res ∷ ress) =
      method_of ix (get_id res.id) req.method ∷ attribute ix reqs ress

  first_method : List Request → List Response → List Text
  first_method [] ress = []
  first_method (req ∷ reqs) ress = req.method ∷ []

  -- responseMethods, for as many responses as requests
  unfoldable pub response_methods : List Request → Bool → List Response → List Text
  unfolding index attribute first_method
  response_methods reqs false ress = first_method reqs ress
  response_methods reqs true ress = attribute (index reqs empty_index) reqs ress
