-- ===== src/Metrics/Labels.antt =====
-- internal/metrics/labels.go, one call at a time; `Interleaving` has the calls of several goroutines.
pub mod Bounds
pub mod Interleaving
use haprovider.Prelude.{
  ℕ, ◌+◌, ◌-◌, Bool, true, false, List, [], ◌∷◌, Option, none, some, ltb, if◌then◌else◌, is_empty,
  Text, text, member,
}

abbrev pub max_method_labels : ℕ
max_method_labels = 1000

-- methodLabels, a set, and methodLabelCount
pub record Labels : Type 0 where
  pub admitted : List Text
  pub count : ℕ

abbrev pub no_labels : Labels
no_labels = record { admitted = []; count = 0 }

-- AdmitMethod. With no other goroutine between the two looks at the map, LoadOrStore stores.
unfoldable pub admit_method : Labels → Text → Labels
unfolding member
admit_method l method =
    if is_empty method
    then l
    else if member method l.admitted
    then l
    else if ltb max_method_labels (l.count + 1)
    then l
    else record { admitted = method ∷ l.admitted; count = l.count + 1 }

-- methodLabel
unfoldable pub method_label : Labels → Text → Text
unfolding member text
method_label l method =
    if is_empty method then [] else (if member method l.admitted then method else text "other")
