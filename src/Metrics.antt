-- ===== src/Metrics.antt =====
-- packages/core/src/observability/metrics.ts, `labelType`: job types as values of a label.
pub mod Labels
use pgjobq.Base.{ℕ, String, Bool, List, [], ◌∷◌, ◌++◌, any, ltb, str_eq, length, if◌then◌else◌}

-- `known` and `maxKnown`
pub record Metrics : Type 0 where
  pub known : List String
  pub max_known : ℕ

abbrev pub other_label : String
other_label = "other"

-- The label, and the types known after.
unfoldable pub label_type : String → Metrics → String × Metrics
label_type type m =
    if any (λ k. str_eq k type) m.known
    then (type, m)
    else if ltb (length m.known) m.max_known
    then (type, record m { known = m.known ++ type ∷ [] })
    else (other_label, m)

-- The labels of a sequence of types.
unfoldable pub label_types : List String → Metrics → List String × Metrics
unfolding label_type
label_types [] m = ([], m)
label_types (type ∷ types) m =
    let (label, m') = label_type type m in
    let (labels, m'') = label_types types m' in (label ∷ labels, m'')
