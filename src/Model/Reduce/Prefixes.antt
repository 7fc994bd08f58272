-- ===== src/Model/Reduce/Prefixes.antt =====
-- Prefixes of stacks, and the set of expanded stacks, for the tree of tracing-console/src/model/core.rs.
use tracing_console.Base.{
  ℕ, zero, suc, ◌+◌, ◌-◌, ◌<◌, ◌≤◌, ◌≡◌, refl, ap, inl, inr, Bool, true, false, Bool-cases, ◌&&◌,
  List, [], ◌∷◌, ◌++◌, if◌then◌else◌, ltb, length, All, ◌==◌, arith,
}
use tracing_console.Base.Text.{Text, text_eq}
use tracing_console.Base.{beq_refl}
use mathlib.Core.List.{append_assoc}
use tracing_console.Aggregate.Bucket.{BucketKey, StackStats}
use tracing_console.Aggregate.State.Keys.{stack_eq}
use tracing_console.Aggregate.Labels.{take_texts}
use tracing_console.Model.Visible.{in_set, prefixes_expanded, starts_with_stack}
use tracing_console.Model.Reduce.Table.{insert_stack, insert_prefixes, expand_below, retain_outside}

-- The proper prefixes of a stack, from behind `done` on, are in the set.
abbrev pub Revealed : List (List Text) → List Text → List Text → Type 0
Revealed set done rest =
    (n : ℕ) → 0 < n → n < length rest → in_set (done ++ take_texts n rest) set ≡ true

pub prefixes_expanded-of :
    (set : List (List Text)) (done rest : List Text)
    → Revealed set done rest
    → prefixes_expanded set done rest ≡ true
unfolding prefixes_expanded
prefixes_expanded-of set done [] h = refl
prefixes_expanded-of set done (name ∷ []) h = refl
prefixes_expanded-of set done (name ∷ next ∷ rest) h =
    let first : in_set (done ++ name ∷ []) set ≡ true = h 1 (omega arith) (omega arith) in
    rw first (
      prefixes_expanded-of set (done ++ name ∷ []) (next ∷ rest) (λ n p q.
        rw (append_assoc done (name ∷ []) (take_texts n (next ∷ rest)))
          (h (suc n) (omega arith) (omega arith))))

pub Revealed-of :
    (set : List (List Text)) (done rest : List Text)
    → prefixes_expanded set done rest ≡ true
    → Revealed set done rest
unfolding prefixes_expanded
Revealed-of set done [] h n p q = absurd (omega arith)
Revealed-of set done (name ∷ []) h n p q = absurd (omega arith)
Revealed-of set done (name ∷ next ∷ rest) h zero p q = absurd (omega arith)
Revealed-of set done (name ∷ next ∷ rest) h (suc zero) p q = ground arith
Revealed-of set done (name ∷ next ∷ rest) h (suc (suc n)) p q =
    let later : prefixes_expanded set (done ++ name ∷ []) (next ∷ rest) ≡ true = ground arith in
    rw (← append_assoc done (name ∷ []) (take_texts (suc n) (next ∷ rest)))
      (Revealed-of set (done ++ name ∷ []) (next ∷ rest) later (suc n) (omega arith) (omega arith))

-- A stack that starts with another.
starts_with_stack-cons :
    (t q : Text) (k s : List Text)
    → starts_with_stack (t ∷ k) (q ∷ s) ≡ true
    → (t ≡ q) × (starts_with_stack k s ≡ true)
unfolding starts_with_stack
starts_with_stack-cons t q k s h = ground (arith, text_eq.beq_iff t q)

pub starts_with_stack-take :
    (k s : List Text)
    → starts_with_stack k s ≡ true
    → (n : ℕ) → n ≤ length s
    → take_texts n k ≡ take_texts n s
unfolding starts_with_stack
starts_with_stack-take k s h zero p = refl
starts_with_stack-take [] [] h (suc n) p = refl
starts_with_stack-take (t ∷ k) [] h (suc n) p = absurd (omega arith)
starts_with_stack-take [] (q ∷ s) h (suc n) p = absurd (cc)
starts_with_stack-take (t ∷ k) (q ∷ s) h (suc n) p =
    let (same, rest) = starts_with_stack-cons t q k s h in
    let shorter : n ≤ length s = omega arith in
    rw (same, starts_with_stack-take k s rest n shorter) refl

pub starts_with_stack-length :
    (k s : List Text) → starts_with_stack k s ≡ true → length s ≤ length k
unfolding starts_with_stack
starts_with_stack-length k [] h = omega arith
starts_with_stack-length [] (q ∷ s) h = absurd (cc)
starts_with_stack-length (t ∷ k) (q ∷ s) h = ground (arith, starts_with_stack-length k s)

pub starts_with_stack_refl : (s : List Text) → starts_with_stack s s ≡ true
unfolding starts_with_stack
starts_with_stack_refl [] = refl
starts_with_stack_refl (t ∷ s) = rw (beq_refl text_eq t, starts_with_stack_refl s) refl

pub take_texts-all : (s : List Text) (n : ℕ) → length s ≤ n → take_texts n s ≡ s
take_texts-all [] zero p = refl
take_texts-all [] (suc n) p = refl
take_texts-all (t ∷ s) zero p = absurd (omega arith)
take_texts-all (t ∷ s) (suc n) p = ap (λ l. t ∷ l) (take_texts-all s n (omega arith))

-- The set of expanded stacks grows and shrinks.
pub in_set-insert_stack :
    (t s : List Text) (set : List (List Text))
    → (in_set s set ≡ true → in_set s (insert_stack t set) ≡ true)
      × (in_set t (insert_stack t set) ≡ true)
unfolding insert_stack
in_set-insert_stack t s set = elim (Bool-cases (in_set t set)) [
  | inl e ↦ rw e (λ h. h, e)
  | inr e ↦ rw e (λ h. ground (arith, h), rw (beq_refl stack_eq t) refl)
]

insert_prefixes_mono :
    (stack s : List Text) (len left : ℕ) (set : List (List Text))
    → in_set s set ≡ true
    → in_set s (insert_prefixes stack len left set) ≡ true
unfolding insert_prefixes
insert_prefixes_mono stack s len zero set h = h
insert_prefixes_mono stack s len (suc left) set h =
    insert_prefixes_mono stack s (suc len) left (insert_stack (take_texts len stack) set)
      ((in_set-insert_stack (take_texts len stack) s set).0 h)

insert_prefixes-in :
    (stack : List Text) (len left n : ℕ) (set : List (List Text))
    → len ≤ n
    → n < len + left
    → in_set (take_texts n stack) (insert_prefixes stack len left set) ≡ true
unfolding insert_prefixes
insert_prefixes-in stack len zero n set p q = absurd (omega arith)
insert_prefixes-in stack len (suc left) n set p q = elim (Bool-cases (n == len)) [
  | inl here ↦
      let same : n ≡ len = ground (arith, here) in
      rw same (
        insert_prefixes_mono stack (take_texts len stack) (suc len) left
          (insert_stack (take_texts len stack) set)
          (in_set-insert_stack (take_texts len stack) (take_texts len stack) set).1)
  | inr other ↦
      let further : suc len ≤ n = ground (arith, other) in
      insert_prefixes-in stack (suc len) left n (insert_stack (take_texts len stack) set) further
        (omega arith)
]

-- A row goes strictly below a stack.
abbrev pub goes_below : List Text → BucketKey × StackStats → Bool
goes_below root row = starts_with_stack row.0.stack root && ltb (length root) (length row.0.stack)

abbrev expanded_by : List Text → BucketKey × StackStats → List (List Text) → List (List Text)
expanded_by root row set =
    if goes_below root row
    then insert_prefixes row.0.stack (length root) (length row.0.stack - length root) set
    else set

expanded_by_mono :
    (root s : List Text) (row : BucketKey × StackStats) (set : List (List Text))
    → in_set s set ≡ true
    → in_set s (expanded_by root row set) ≡ true
expanded_by_mono root s row set h = elim (Bool-cases (goes_below root row)) [
  | inl e ↦ rw e (insert_prefixes_mono row.0.stack s (length root) _ set h)
  | inr e ↦ rw e h
]

pub expand_below_mono :
    (root s : List Text) (all : List (BucketKey × StackStats)) (set : List (List Text))
    → in_set s set ≡ true
    → in_set s (expand_below root all set) ≡ true
unfolding expand_below
expand_below_mono root s [] set h = h
expand_below_mono root s (row ∷ all) set h =
    expand_below_mono root s all (expanded_by root row set) (expanded_by_mono root s row set h)

-- The prefixes of the rows below the root, from the root's length on, are expanded.
pub expand_below-All :
    (root : List Text) (all : List (BucketKey × StackStats)) (set : List (List Text))
    → All
        (λ row.
          goes_below root row ≡ true
          → (n : ℕ) → length root ≤ n
          → n < length row.0.stack
          → in_set (take_texts n row.0.stack) (expand_below root all set) ≡ true)
        all
unfolding expand_below
expand_below-All root [] set = tt
expand_below-All root (row ∷ all) set = (
  λ below n p q. expand_below_mono root (take_texts n row.0.stack) all (expanded_by root row set) (
      rw below (
        insert_prefixes-in row.0.stack (length root) (length row.0.stack - length root) n set p
          (omega arith))),
  expand_below-All root all (expanded_by root row set),
)

-- No stack that starts with the prefix is left.
pub retain_outside-not :
    (prefix s : List Text) (set : List (List Text))
    → starts_with_stack s prefix ≡ true
    → in_set s (retain_outside prefix set) ≡ false
unfolding retain_outside
retain_outside-not prefix s [] h = refl
retain_outside-not prefix s (t ∷ set) h = elim (Bool-cases (starts_with_stack t prefix)) [
  | inl e ↦ rw e (retain_outside-not prefix s set h)
  | inr e ↦
      rw (e, retain_outside-not prefix s set h)
        (elim (Bool-cases (stack_eq.beq t s)) [
          | inl same ↦ absurd (
              ground
                (arith, e, h, ap (λ x. starts_with_stack x prefix) ((stack_eq.beq_iff t s).0 same)))
          | inr differ ↦ rw differ refl
        ])
]

pub retain_outside-same :
    (prefix s : List Text) (set : List (List Text))
    → starts_with_stack s prefix ≡ false
    → in_set s (retain_outside prefix set) ≡ in_set s set
unfolding retain_outside
retain_outside-same prefix s [] h = refl
retain_outside-same prefix s (t ∷ set) h = elim (Bool-cases (starts_with_stack t prefix)) [
  | inl e ↦
      rw (e, retain_outside-same prefix s set h)
        (elim (Bool-cases (stack_eq.beq t s)) [
          | inl same ↦ absurd (
              ground
                (arith, e, h, ap (λ x. starts_with_stack x prefix) ((stack_eq.beq_iff t s).0 same)))
          | inr differ ↦ rw differ refl
        ])
  | inr e ↦ rw (e, retain_outside-same prefix s set h) refl
]

-- Whether a stack is revealed depends on the set at its proper prefixes only.
pub prefixes_expanded-same :
    (a b : List (List Text)) (done rest : List Text)
    → ((n : ℕ)
        → 0 < n
        → n < length rest
        → in_set (done ++ take_texts n rest) a ≡ in_set (done ++ take_texts n rest) b)
    → prefixes_expanded a done rest ≡ prefixes_expanded b done rest
unfolding prefixes_expanded
prefixes_expanded-same a b done [] h = refl
prefixes_expanded-same a b done (name ∷ []) h = refl
prefixes_expanded-same a b done (name ∷ next ∷ rest) h =
    let first : in_set (done ++ name ∷ []) a ≡ in_set (done ++ name ∷ []) b =
      h 1 (omega arith) (omega arith) in
    let later = prefixes_expanded-same a b (done ++ name ∷ []) (next ∷ rest) (λ n p q.
      rw (append_assoc done (name ∷ []) (take_texts n (next ∷ rest)))
        (h (suc n) (omega arith) (omega arith))) in
    rw (first, later) refl

-- A prefix that starts with the root belongs to a stack that does.
pub starts_with_stack-of_take :
    (k s : List Text) (n : ℕ)
    → starts_with_stack (take_texts n k) s ≡ true
    → starts_with_stack k s ≡ true
unfolding starts_with_stack
starts_with_stack-of_take k [] n h = refl
starts_with_stack-of_take k (q ∷ s) zero h = absurd (cc)
starts_with_stack-of_take [] (q ∷ s) (suc n) h = absurd (cc)
starts_with_stack-of_take (t ∷ k) (q ∷ s) (suc n) h =
    let (same, rest) = starts_with_stack-cons t q (take_texts n k) s h in
    rw (same, beq_refl text_eq q) (starts_with_stack-of_take k s n rest)

pub length-take_texts : (k : List Text) (n : ℕ) → length (take_texts n k) ≤ n
length-take_texts k zero = omega arith
length-take_texts [] (suc n) = omega arith
length-take_texts (t ∷ k) (suc n) = omega (arith, length-take_texts k n)
