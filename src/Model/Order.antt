-- ===== src/Model/Order.antt =====
-- Stable sorting by a comparison, and the lexicographic order of the keys of series, in
-- tracing-console/src/model.
pub mod Laws
use tracing_console.Base.{Bool, true, false, List, [], ◌∷◌, if◌then◌else◌}
use tracing_console.Base.Text.{Text, text_eq}
use tracing_console.Aggregate.State.Keys.{text_le}

module _ {ℓ} {A : Type ℓ} (not_after : A → A → Bool) where
  unfoldable pub insert_by : A → List A → List A
  insert_by a [] = a ∷ []
  insert_by a (b ∷ bs) = let rest = insert_by a bs in if not_after a b then a ∷ b ∷ bs else b ∷ rest

  -- `sort_by`: equal elements keep their order.
  unfoldable pub sort_by : List A → List A
  unfolding insert_by
  sort_by [] = []
  sort_by (a ∷ bs) = insert_by a (sort_by bs)

-- `a <= b` of pairs of texts, and of lists of them.
unfoldable pub pair_le : Text × Text → Text × Text → Bool
unfolding text_le
pair_le p q = if text_eq.beq p.0 q.0 then text_le p.1 q.1 else text_le p.0 q.0

unfoldable pub key_le : List (Text × Text) → List (Text × Text) → Bool
unfolding pair_le
key_le [] key = true
key_le (p ∷ a) [] = false
key_le (p ∷ a) (q ∷ b) =
    let rest = key_le a b in
    if text_eq.beq p.0 q.0 then (if text_eq.beq p.1 q.1 then rest else pair_le p q) else pair_le p q
