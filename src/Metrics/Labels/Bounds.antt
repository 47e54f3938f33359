-- ===== src/Metrics/Labels/Bounds.antt =====
-- The number of labels is bounded (internal/metrics/labels.go).
use haprovider.Prelude.{
  ◌≡◌, ◌≤◌, List, [], ◌∷◌, Text, length, member, text_eq, text_eq_iff, arith, ltb, ◌&&◌,
  if◌then◌else◌,
}
use haprovider.Metrics.Labels.{Labels, max_method_labels, no_labels, admit_method, method_label}

pub record IsValid (l : Labels) : Type 0 where
  pub counted : l.count ≡ length l.admitted
  pub bounded : l.count ≤ max_method_labels

admit_method-IsValid : (l : Labels) (method : Text) → IsValid l → IsValid (admit_method l method)
unfolding admit_method
admit_method-IsValid l method v = ground arith

pub admit_all : Labels → List Text → Labels
admit_all l [] = l
admit_all l (m ∷ ms) = admit_all (admit_method l m) ms

admit_all-IsValid_from : (l : Labels) (ms : List Text) → IsValid l → IsValid (admit_all l ms)
unfolding admit_all
admit_all-IsValid_from l [] v = v
admit_all-IsValid_from l (m ∷ ms) v =
    admit_all-IsValid_from (admit_method l m) ms (admit_method-IsValid l m v)

-- Whatever methods are admitted, and however many, there are never more than 1000 labels, and the
-- counter is their number.
pub admit_all-IsValid : (ms : List Text) → IsValid (admit_all no_labels ms)
admit_all-IsValid ms = admit_all-IsValid_from no_labels ms (ground arith)

-- Admitting a method gives it a label of its own while there are fewer than 1000 labels, and changes
-- the label of no other method, nor of any method once there are 1000.
pub method_label-admit_method :
    (l : Labels) (method k : Text)
    → method_label (admit_method l method) k
      ≡ (if text_eq k method && ltb l.count max_method_labels then k else method_label l k)
unfolding method_label admit_method member
method_label-admit_method l method k = ground (arith, text_eq_iff k method)
