-- ===== src/Ws/Proxy/Line.antt =====
-- A channel with one sender and one receiver, from what has been put on it to what has been dealt
-- with (Requests and Responses of internal/ws/ws.go).
use haprovider.Prelude.{
  ℕ, ◌≡◌, ◌≤◌, ◌<◌, refl, sym, ap, ◌∙◌, List, [], ◌∷◌, ◌++◌, append-nil, append_assoc, map-append,
  map, length, length-append, Text, Option, none, some, arith,
}
use haprovider.Rpc.Batch.{Result, ok, err}
use haprovider.Ws.Proxy.{channel_size, Written, own, relayed, written, counted}

-- What a receiver that holds a message has left to take after it
abbrev pub expected : Option ℕ → ℕ
expected none = 0
expected (some n) = n

-- What has been put on the channel is what has been dealt with, then what the receiver holds, then
-- what is still in the channel. The receiver never counts more than is there.
pub record IsLine {ℓ} {A : Type ℓ} (put dealt held queue : List A) (left : ℕ) : Type ℓ where
  pub kept : put ≡ dealt ++ (held ++ queue)
  pub bounded : length queue ≤ channel_size
  pub possible : left ≤ length queue

module _ {ℓ} {A : Type ℓ} (put dealt held queue : List A) (left : ℕ) where
  pub push-IsLine :
      (x : A)
      → length queue < channel_size
      → IsLine put dealt held queue left
      → IsLine (put ++ x ∷ []) dealt held (queue ++ x ∷ []) left
  push-IsLine x room l = record {
    kept =
        ap (λ (xs : List A). xs ++ x ∷ []) l.kept
        ∙ (append_assoc dealt (held ++ queue) (x ∷ [])
            ∙ ap (λ xs. dealt ++ xs) (append_assoc held queue (x ∷ [])));
    bounded = omega (arith, length-append queue (x ∷ []));
    possible = omega (arith, l.possible, length-append queue (x ∷ []));
  }

  -- The receiver takes a message, the first or a further one of those that it has counted.
  pub take-IsLine :
      (x : A) (rest : List A) (n : ℕ)
      → held ≡ []
      → queue ≡ x ∷ rest
      → n ≤ length rest
      → IsLine put dealt held queue left
      → IsLine put dealt (x ∷ []) rest n
  take-IsLine x rest n none_held first fits l = record {
    kept = l.kept ∙ ap (λ xs. dealt ++ xs) (ap (λ (h : List A). h ++ queue) none_held ∙ first);
    bounded = omega (arith, l.bounded, ap length first);
    possible = fits;
  }

  -- It is through with the message, and counts what is left unless it has done so before.
  pub deal-IsLine :
      (x : A) (k : Option ℕ)
      → held ≡ x ∷ []
      → left ≡ expected k
      → IsLine put dealt held queue left
      → IsLine put (dealt ++ x ∷ []) [] queue (counted k queue)
  deal-IsLine x k one same l = record {
    kept =
        l.kept
        ∙ (ap (λ (h : List A). dealt ++ (h ++ queue)) one
            ∙ sym (append_assoc dealt (x ∷ []) queue));
    bounded = l.bounded;
    possible = counted-possible k same;
  }
    where
      counted-possible : (o : Option ℕ) → left ≡ expected o → counted o queue ≤ length queue
      counted-possible none e = omega arith
      counted-possible (some n) e = omega (arith, l.possible)

  -- Between two messages it holds nothing.
  pub rest-IsLine :
      (n : ℕ)
      → held ≡ []
      → n ≤ left
      → IsLine put dealt held queue left
      → IsLine put dealt [] queue n
  rest-IsLine n none_held fewer l = record {
    kept = l.kept ∙ ap (λ (h : List A). dealt ++ (h ++ queue)) none_held;
    bounded = l.bounded;
    possible = omega (arith, l.possible);
  }

-- What a log of writes holds
unfoldable pub texts : List (Result Text) → List Text
texts [] = []
texts (ok t ∷ rs) = t ∷ texts rs
texts (err e ∷ rs) = texts rs

texts-append : (rs qs : List (Result Text)) → texts (rs ++ qs) ≡ texts rs ++ texts qs
unfolding texts
texts-append [] qs = refl
texts-append (ok t ∷ rs) qs = ap (λ ts. t ∷ ts) (texts-append rs qs)
texts-append (err e ∷ rs) qs = texts-append rs qs

written_one : (r : Result Text) (log : List Text) → written (λ t. t) r log ≡ log ++ texts (r ∷ [])
unfolding texts
written_one (ok t) log = refl
written_one (err e) log = sym (append-nil log)

-- A log of what is written for each of some messages, with one more
pub written-texts {ℓ} :
    {A : Type ℓ} (f : A → Result Text) (xs : List A) (x : A) (log : List Text)
    → log ≡ texts (map f xs)
    → written (λ t. t) (f x) log ≡ texts (map f (xs ++ x ∷ []))
written-texts f xs x log same =
    written_one (f x) log
    ∙ (ap (λ ts. ts ++ texts (f x ∷ [])) same
        ∙ (sym (texts-append (map f xs) (f x ∷ [])) ∙ ap texts (sym (map-append f xs (x ∷ [])))))

-- What has been written to the client on behalf of the provider
unfoldable pub from_provider : List Written → List Text
from_provider [] = []
from_provider (own t ∷ ws) = from_provider ws
from_provider (relayed t ∷ ws) = t ∷ from_provider ws

from_provider-append :
    (ws vs : List Written) → from_provider (ws ++ vs) ≡ from_provider ws ++ from_provider vs
unfolding from_provider
from_provider-append [] vs = refl
from_provider-append (own t ∷ ws) vs = from_provider-append ws vs
from_provider-append (relayed t ∷ ws) vs = ap (λ ts. t ∷ ts) (from_provider-append ws vs)

pub from_provider-own :
    (r : Result Text) (ws : List Written) → from_provider (written own r ws) ≡ from_provider ws
unfolding from_provider
from_provider-own (ok t) ws = from_provider-append ws (own t ∷ []) ∙ append-nil (from_provider ws)
from_provider-own (err e) ws = refl

pub from_provider-relayed :
    (r : Result Text) (ws : List Written)
    → from_provider (written relayed r ws) ≡ written (λ t. t) r (from_provider ws)
unfolding from_provider
from_provider-relayed (ok t) ws = from_provider-append ws (relayed t ∷ [])
from_provider-relayed (err e) ws = refl
