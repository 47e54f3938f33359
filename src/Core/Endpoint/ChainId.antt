-- ===== src/Core/Endpoint/ChainId.antt =====
-- The chain id that the providers of an endpoint agree on (internal/core/endpoint.go).
use haprovider.Prelude.{
  ◌≡◌, ◌≢◌, ◌⊎◌, inl, inr, sym, ◌∙◌, refl, is_empty, Bool-cases, List, [], ◌∷◌, Option, none, some,
  Text, text_eq_iff, arith,
}
use haprovider.Rpc.Error.{Error}
use haprovider.Core.Endpoint.{Endpoint, set_chain_id}

abbrev keep_accepted : Option Error → Text → List Text → List Text
keep_accepted none c cs = c ∷ cs
keep_accepted (some e) c cs = cs

-- The ids that are reported in turn: the endpoint after them, and those that were accepted.
pub report_all : Endpoint → List Text → Endpoint × List Text
report_all e [] = (e, [])
report_all e (c ∷ cs) =
    let (e', error) = set_chain_id e c in
    let (last, accepted) = report_all e' cs in (last, keep_accepted error c accepted)

abbrev pub NoneEmpty : List Text → Type 0
NoneEmpty [] = Unit
NoneEmpty (c ∷ cs) = (c ≢ []) × NoneEmpty cs

abbrev pub AllAre : Text → List Text → Type 0
AllAre c [] = Unit
AllAre c (d ∷ ds) = (d ≡ c) × AllAre c ds

AllAre-keep_accepted :
    (error : Option Error) (c d : Text) (ds : List Text)
    → (error ≡ none → c ≡ d)
    → AllAre d ds
    → AllAre d (keep_accepted error c ds)
AllAre-keep_accepted none c d ds h all = (h refl, all)
AllAre-keep_accepted (some e) c d ds h all = all

set_chain_id-set :
    (e : Endpoint) (c : Text)
    → e.chain_id ≢ []
    → ((set_chain_id e c).0 ≡ e) × ((set_chain_id e c).1 ≡ none → c ≡ e.chain_id)
unfolding set_chain_id
set_chain_id-set e c h =
    (ground arith, λ (k : (set_chain_id e c).1 ≡ none). ground (arith, text_eq_iff e.chain_id c))

set_chain_id-unset :
    (e : Endpoint) (c : Text)
    → e.chain_id ≡ []
    → ((set_chain_id e c).0.chain_id ≡ c) × ((set_chain_id e c).1 ≡ none)
unfolding set_chain_id
set_chain_id-unset e c h = ground arith

-- Once set, the chain id stays, and only that id is accepted.
report_all-set :
    (e : Endpoint) (cs : List Text)
    → e.chain_id ≢ []
    → ((report_all e cs).0.chain_id ≡ e.chain_id) × AllAre e.chain_id (report_all e cs).1
unfolding report_all
report_all-set e [] h = (refl, tt)
report_all-set e (c ∷ cs) h =
    let (same, agrees) = set_chain_id-set e c h in
    let ih = report_all-set e cs h in
    (rw same ih.0, AllAre-keep_accepted (set_chain_id e c).1 c e.chain_id _ agrees (rw same ih.1))

report_first :
    (e : Endpoint) (c : Text) (cs : List Text)
    → e.chain_id ≡ []
    → c ≢ []
    → AllAre (report_all e (c ∷ cs)).0.chain_id (report_all e (c ∷ cs)).1
      × ((e.chain_id ≡ []) ⊎ ((report_all e (c ∷ cs)).0.chain_id ≡ e.chain_id))
unfolding report_all
report_first e c cs unset filled =
    let (now, ok) = set_chain_id-unset e c unset in
    let ih = report_all-set (set_chain_id e c).0 cs (λ k. filled (sym now ∙ k)) in
    (
      AllAre-keep_accepted (set_chain_id e c).1 c _ _ (λ _. sym now ∙ sym ih.0) (rw ih.0 ih.1),
      inl unset,
    )

-- Whatever nonempty ids the providers report, and in whatever order, every id that is accepted is
-- the chain id that the endpoint ends up with, and that is the configured id if there was one.
pub report_all-agree :
    (e : Endpoint) (cs : List Text)
    → NoneEmpty cs
    → AllAre (report_all e cs).0.chain_id (report_all e cs).1
      × ((e.chain_id ≡ []) ⊎ ((report_all e cs).0.chain_id ≡ e.chain_id))
unfolding report_all
report_all-agree e [] h = (tt, inr refl)
report_all-agree e (c ∷ cs) h = elim (Bool-cases (is_empty e.chain_id)) [
  | inl empty ↦ report_first e c cs (ground arith) h.0
  | inr filled ↦
      let set = report_all-set e (c ∷ cs) (λ k. ground arith) in (rw set.0 set.1, inr set.0)
]

-- An empty id is accepted by an endpoint with no chain id and sets nothing, so that the next
-- provider's id is taken as the first one, whatever it is.
pub set_chain_id-empty :
    (e : Endpoint) (c : Text)
    → e.chain_id ≡ []
    → ((set_chain_id e []).1 ≡ none)
      × ((set_chain_id (set_chain_id e []).0 c).1 ≡ none)
      × ((set_chain_id (set_chain_id e []).0 c).0.chain_id ≡ c)
unfolding set_chain_id
set_chain_id-empty e c h = ground arith
