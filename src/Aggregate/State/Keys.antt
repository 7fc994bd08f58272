-- ===== src/Aggregate/State/Keys.antt =====
-- The bucket keys of tracing-console/src/aggregate/state.rs: their equality, and the splits of a span.
use Prim.Native.Nat.{compare, Ordering}
use tracing_console.Base.{
  ℕ, Bool, true, false, not, ◌&&◌, List, [], ◌∷◌, ◌++◌, Option, none, some, if◌then◌else◌, Eq, ◌≡◌,
  ◌↔◌, arith, any,
}
use tracing_console.Base.Text.{Text, text_eq, list_eq, pair_eq}
use tracing_console.Host.Protocol.{WireSpan, WireFieldValue, to_string_value}
use tracing_console.Aggregate.Bucket.{BucketKey}

abbrev pub stack_eq : Eq (List Text)
stack_eq = list_eq text_eq

abbrev pub splits_eq : Eq (List (Text × Text))
splits_eq = list_eq (pair_eq text_eq text_eq)

abbrev pub key_beq : BucketKey → BucketKey → Bool
key_beq a b = stack_eq.beq a.stack b.stack && splits_eq.beq a.splits b.splits

pub key_beq_iff : (a b : BucketKey) → (key_beq a b ≡ true) ↔ (a ≡ b)
key_beq_iff a b =
    ground (arith, stack_eq.beq_iff a.stack b.stack, splits_eq.beq_iff a.splits b.splits)

abbrev pub key_eq : Eq BucketKey
key_eq = record { beq = key_beq; beq_iff = key_beq_iff }

abbrev pub has_key : Text → List (Text × Text) → Bool
has_key k = any λ e. text_eq.beq e.0 k

abbrev pub has_text : Text → List Text → Bool
has_text k = any λ t. text_eq.beq t k

-- The byte order of `str`.
unfoldable pub text_le : Text → Text → Bool
text_le [] t = true
text_le (c ∷ s) [] = false
text_le (c ∷ s) (d ∷ t) = elim (compare c d) [
  | Ordering.lt ↦ true
  | Ordering.eq ↦ text_le s t
  | Ordering.gt ↦ false
]

-- `sort_by(|a, b| a.0.cmp(&b.0))`, which is stable.
unfoldable pub insert_split : Text × Text → List (Text × Text) → List (Text × Text)
unfolding text_le
insert_split e [] = e ∷ []
insert_split e (f ∷ splits) = if text_le e.0 f.0 then e ∷ f ∷ splits else f ∷ insert_split e splits

unfoldable pub sort_splits : List (Text × Text) → List (Text × Text)
unfolding insert_split
sort_splits [] = []
sort_splits (e ∷ splits) = insert_split e (sort_splits splits)

module _ (show_f64 : ℕ → Text) where
  -- The first loop: the span's own fields that are split keys.
  unfoldable pub own_splits :
      List (Text × WireFieldValue) → List Text → List (Text × Text) → List (Text × Text)
  own_splits [] split_keys splits = splits
  own_splits ((k, v) ∷ fields) split_keys splits = own_splits fields split_keys (
      if has_text k split_keys && not (has_key k splits)
      then splits ++ (k, to_string_value show_f64 v) ∷ []
      else splits)

  -- The second loop: what the parent resolved, under other keys.
  unfoldable pub inherit : List (Text × Text) → List (Text × Text) → List (Text × Text)
  inherit [] splits = splits
  inherit ((k, v) ∷ parent) splits =
      inherit parent (if has_key k splits then splits else splits ++ (k, v) ∷ [])

  abbrev pub inherit_from : Option (List (Text × Text)) → List (Text × Text) → List (Text × Text)
  inherit_from none splits = splits
  inherit_from (some parent) splits = inherit parent splits

  unfoldable pub collect_splits :
      WireSpan → Option (List (Text × Text)) → List Text → List (Text × Text)
  unfolding own_splits inherit sort_splits
  collect_splits span parent_splits split_keys =
      sort_splits (inherit_from parent_splits (own_splits span.fields split_keys []))
