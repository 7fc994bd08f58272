-- ===== src/Model/Visible/Laws.antt =====
-- That the table knows which rows have children: the order of the rows of the aggregator, and the scan of
-- tracing-console/src/model/core.rs over it.
use tracing_console.Base.{
  ◌≡◌, refl, ◌∙◌, sym, inl, inr, Bool, true, false, Bool-cases, ◌&&◌, List, [], ◌∷◌, ltb, length,
  any, arith,
}
use tracing_console.Base.Text.{Text, text_eq}
use tracing_console.Aggregate.Bucket.{BucketKey, StackStats}
use tracing_console.Aggregate.State.Keys.{text_le, stack_eq}
use tracing_console.Aggregate.Bucket.{to_stack_stats}
use tracing_console.Base.{map}
use tracing_console.Base.Lists.{All}
use tracing_console.Model.Reals.{Reals}
use tracing_console.Model.Order.{insert_by, sort_by}
use tracing_console.Model.Order.Laws.{text_le_total}
use tracing_console.Model.Core.{Model, visible_rows}
use tracing_console.Model.Visible.{
  VisibleRow, rows, bucket_le, stack_le, starts_with_stack, has_children_in, visible_of,
  prefixes_expanded,
}

text_le_antisymmetric : (a b : Text) → text_le a b ≡ true → text_le b a ≡ true → a ≡ b
unfolding text_le
text_le_antisymmetric [] [] h k = refl
text_le_antisymmetric [] (d ∷ t) h k = cc
text_le_antisymmetric (c ∷ s) [] h k = cc
text_le_antisymmetric (c ∷ s) (d ∷ t) h k = ground (arith, text_le_antisymmetric s t)

text_le_trans : (a b c : Text) → text_le a b ≡ true → text_le b c ≡ true → text_le a c ≡ true
unfolding text_le
text_le_trans [] b c h k = refl
text_le_trans (x ∷ a) [] c h k = cc
text_le_trans (x ∷ a) (y ∷ b) [] h k = cc
text_le_trans (x ∷ a) (y ∷ b) (z ∷ c) h k = ground (arith, text_le_trans a b c)

stack_le_trans :
    (a b c : List Text) → stack_le a b ≡ true → stack_le b c ≡ true → stack_le a c ≡ true
unfolding stack_le
stack_le_trans [] b c h k = refl
stack_le_trans (x ∷ a) [] c h k = cc
stack_le_trans (x ∷ a) (y ∷ b) [] h k = cc
stack_le_trans (x ∷ a) (y ∷ b) (z ∷ c) h k = ground (
  arith,
  text_eq.beq_iff x y,
  text_eq.beq_iff y z,
  text_eq.beq_iff x z,
  text_le_trans x y z,
  text_le_antisymmetric x y,
  stack_le_trans a b c,
)

-- Past the stacks that a stack begins, none begins with it any more.
not_starting_later :
    (s n m : List Text)
    → stack_le s n ≡ true
    → starts_with_stack n s ≡ false
    → stack_le n m ≡ true
    → starts_with_stack m s ≡ false
unfolding stack_le starts_with_stack
not_starting_later [] n m h k l = cc
not_starting_later (a ∷ s) [] m h k l = cc
not_starting_later (a ∷ s) (b ∷ n) [] h k l = refl
not_starting_later (a ∷ s) (b ∷ n) (c ∷ m) h k l = ground (
  arith,
  text_eq.beq_iff a b,
  text_eq.beq_iff b a,
  text_eq.beq_iff b c,
  text_eq.beq_iff c a,
  text_le_antisymmetric a b,
  not_starting_later s n m,
)

stack_le_refl : (a : List Text) → stack_le a a ≡ true
unfolding stack_le
stack_le_refl [] = refl
stack_le_refl (x ∷ a) = ground (arith, text_eq.beq_iff x x, stack_le_refl a)

stack_le_total : (a b : List Text) → stack_le a b ≡ false → stack_le b a ≡ true
unfolding stack_le
stack_le_total [] b h = cc
stack_le_total (x ∷ a) [] h = refl
stack_le_total (x ∷ a) (y ∷ b) h =
    ground (arith, text_eq.beq_iff x y, text_eq.beq_iff y x, text_le_total x y, stack_le_total a b)

-- A stack that another one begins with, and that is longer, comes after it.
not_extending :
    (s m : List Text)
    → stack_le m s ≡ true
    → (starts_with_stack m s && ltb (length s) (length m)) ≡ false
unfolding stack_le starts_with_stack
not_extending [] [] h = refl
not_extending [] (c ∷ m) h = cc
not_extending (a ∷ s) [] h = refl
not_extending (a ∷ s) (c ∷ m) h =
    ground (arith, text_eq.beq_iff c a, text_eq.beq_iff a c, not_extending s m)

-- A row of the table whose stack goes below a stack.
abbrev pub extends : List Text → BucketKey × StackStats → Bool
extends s row = starts_with_stack row.0.stack s && ltb (length s) (length row.0.stack)

-- Each stack is at most the next one, from a first one on.
abbrev IsChained : List Text → List (BucketKey × StackStats) → Type 0
IsChained s [] = Unit {0}
IsChained s (row ∷ later) = (stack_le s row.0.stack ≡ true) × IsChained row.0.stack later

IsChained-below :
    (s n : List Text) (later : List (BucketKey × StackStats))
    → stack_le s n ≡ true
    → IsChained n later
    → IsChained s later
IsChained-below s n [] h v = tt
IsChained-below s n (row ∷ later) h v = (stack_le_trans s n row.0.stack h v.0, v.1)

none_extends_later :
    (s n : List Text) (later : List (BucketKey × StackStats))
    → stack_le s n ≡ true
    → starts_with_stack n s ≡ false
    → IsChained n later
    → any (extends s) later ≡ false
none_extends_later s n [] h k v = refl
none_extends_later s n (row ∷ later) h k v =
    let past = not_starting_later s n row.0.stack h k v.0 in
    let rest =
      none_extends_later s row.0.stack later (stack_le_trans s n row.0.stack h v.0)
        (not_starting_later s n row.0.stack h k v.0) v.1 in
    rw (past, rest) refl

has_children_in-any :
    (s : List Text) (later : List (BucketKey × StackStats))
    → IsChained s later
    → has_children_in s later ≡ any (extends s) later
unfolding has_children_in
has_children_in-any s [] v = refl
has_children_in-any s (row ∷ later) v = ground (
  arith,
  none_extends_later s row.0.stack later v.0,
  has_children_in-any s later (IsChained-below s row.0.stack later v.0 v.1),
)

bucket_le-stack :
    (a b : BucketKey × StackStats) → bucket_le a b ≡ true → stack_le a.0.stack b.0.stack ≡ true
bucket_le-stack a b h = elim (Bool-cases (stack_eq.beq a.0.stack b.0.stack)) [
  | inl e ↦
      let same : a.0.stack ≡ b.0.stack = (stack_eq.beq_iff a.0.stack b.0.stack).0 e in
      rw same (stack_le_refl b.0.stack)
  | inr e ↦ ground (arith, e, h)
]

not-bucket_le-stack :
    (a b : BucketKey × StackStats) → bucket_le a b ≡ false → stack_le b.0.stack a.0.stack ≡ true
not-bucket_le-stack a b h = elim (Bool-cases (stack_eq.beq a.0.stack b.0.stack)) [
  | inl e ↦
      let same : a.0.stack ≡ b.0.stack = (stack_eq.beq_iff a.0.stack b.0.stack).0 e in
      rw same (stack_le_refl b.0.stack)
  | inr e ↦ ground (arith, e, h, stack_le_total a.0.stack b.0.stack)
]

insert_by-IsChained :
    (s : List Text) (a : BucketKey × StackStats) (listed : List (BucketKey × StackStats))
    → stack_le s a.0.stack ≡ true
    → IsChained s listed
    → IsChained s (insert_by bucket_le a listed)
unfolding insert_by
insert_by-IsChained s a [] h v = (h, tt)
insert_by-IsChained s a (b ∷ listed) h v = elim (Bool-cases (bucket_le a b)) [
  | inl e ↦ rw e (h, (bucket_le-stack a b e, v.1))
  | inr e ↦ rw e (v.0, insert_by-IsChained b.0.stack a listed (not-bucket_le-stack a b e) v.1)
]

sort_by-IsChained :
    (listed : List (BucketKey × StackStats)) → IsChained [] (sort_by bucket_le listed)
unfolding sort_by
sort_by-IsChained [] = tt
sort_by-IsChained (a ∷ listed) =
    insert_by-IsChained [] a (sort_by bucket_le listed) (unfold stack_le in refl)
      (sort_by-IsChained listed)

-- A visible row that tells truly whether a row of the table goes below it.
abbrev pub IsTold : List (BucketKey × StackStats) → VisibleRow → Type 0
IsTold all row = row.has_children ≡ any (extends row.key.stack) all

-- `all` extends whatever comes from `s` on as the rest does.
visible_of-IsTold :
    (expanded : List (List Text)) (all : List (BucketKey × StackStats)) (s : List Text)
    (rest : List (BucketKey × StackStats))
    → IsChained s rest
    → ((k : List Text) → stack_le s k ≡ true → any (extends k) all ≡ any (extends k) rest)
    → All (IsTold all) (visible_of expanded rest)
unfolding visible_of
visible_of-IsTold expanded all s [] v f = tt
visible_of-IsTold expanded all s ((key, stats) ∷ later) v f =
    let behind = λ (k : List Text) (h : stack_le key.stack k ≡ true).
      f k (stack_le_trans s key.stack k v.0 h) ∙ rw (not_extending k key.stack h) refl in
    let below = visible_of-IsTold expanded all key.stack later v.1 behind in
    elim (Bool-cases (prefixes_expanded expanded [] key.stack)) [
      | inl e ↦ rw e (
        has_children_in-any key.stack later v.1 ∙ sym (behind key.stack (stack_le_refl key.stack)),
        below,
      )
      | inr e ↦ rw e below
    ]

module _ (r : Reals) where
  -- In every state of the model, each row that the table shows tells that it has children exactly when
  -- some row of the aggregator, visible or not, has a longer stack that begins with the row's.
  pub visible_rows-IsTold : (m : Model r) → All (IsTold (rows m.agg)) (visible_rows r m)
  unfolding visible_rows rows
  visible_rows-IsTold m =
      let listed = map (λ e. (e.0, to_stack_stats e.1)) m.agg.buckets in
      visible_of-IsTold m.expanded (rows m.agg) [] (rows m.agg) (sort_by-IsChained listed)
        (λ k h. refl)
