-- ===== src/Aggregate/Bucket/Multiset.antt =====
-- The sorted multisets of tracing-console/src/aggregate/state.rs: `ms_dec` undoes an increment, and
-- the extreme keys are those of the values that went in.
use tracing_console.Base.{
  ℕ, suc, ◌+◌, ◌≤◌, ◌<◌, ◌≡◌, ◌≢◌, refl, min, max, List, [], ◌∷◌, Option, none, some, arith,
  Option-cases, inl, inr, length,
}
use tracing_console.Base.OrdMap.{
  lookup, insert, IsSorted, Above, lookup-insert, insert-insert, insert_same, remove-insert_absent,
  insert-Above,
}
use tracing_console.Aggregate.Bucket.{
  Multiset, ms_inc, ms_dec, ms_min_max, first_key, last_key, get_or_zero, wrapping_add, u32_mod,
}

-- A value that occurs does so at least once, and once more still fits a `u32`.
abbrev pub RoomFor : ℕ → Multiset → Type 0
RoomFor key ms = (c : ℕ) → lookup key ms ≡ some c → (0 < c) × (c + 1 < u32_mod)

ms_dec-ms_inc_absent :
    (key : ℕ) (ms : Multiset) → lookup key ms ≡ none → ms_dec key (ms_inc key ms) ≡ ms
unfolding ms_dec ms_inc
ms_dec-ms_inc_absent key ms absent =
    ground (arith, lookup-insert key key 1 ms, remove-insert_absent key 1 ms)

ms_dec-ms_inc_present :
    (key c : ℕ) (ms : Multiset)
    → IsSorted ms
    → lookup key ms ≡ some c
    → 0 < c
    → c + 1 < u32_mod
    → ms_dec key (ms_inc key ms) ≡ ms
unfolding ms_dec ms_inc
ms_dec-ms_inc_present key c ms sorted present positive room = ground (
  arith,
  lookup-insert key key (c + 1) ms,
  insert-insert key c (c + 1) ms,
  insert_same 0 key c ms sorted,
)

-- A value that went in comes out again, and leaves the multiset as it was.
pub ms_dec-ms_inc :
    (key : ℕ) (ms : Multiset) → IsSorted ms → RoomFor key ms → ms_dec key (ms_inc key ms) ≡ ms
ms_dec-ms_inc key ms sorted room = elim (Option-cases (lookup key ms)) [
  | inl absent ↦ ms_dec-ms_inc_absent key ms absent
  | inr (c, present) ↦
      ms_dec-ms_inc_present key c ms sorted present (room c present).0 (room c present).1
]

pub ms_inc-IsSorted : (key : ℕ) (ms : Multiset) → IsSorted ms → IsSorted (ms_inc key ms)
unfolding ms_inc
ms_inc-IsSorted key ms sorted = insert-Above 0 key _ ms (omega arith) sorted

insert_comm :
    (j k a b : ℕ) (ms : Multiset) → j ≢ k → insert j a (insert k b ms) ≡ insert k b (insert j a ms)
unfolding insert
insert_comm j k a b [] ne = ground arith
insert_comm j k a b ((i, c) ∷ ms) ne = ground (arith, insert_comm j k a b ms ne)

-- The order in which two values go in does not matter.
pub ms_inc_comm : (j k : ℕ) (ms : Multiset) → ms_inc j (ms_inc k ms) ≡ ms_inc k (ms_inc j ms)
unfolding ms_inc
ms_inc_comm j k ms = ground (
  arith,
  lookup-insert k j (wrapping_add u32_mod (get_or_zero (lookup k ms)) 1) ms,
  lookup-insert j k (wrapping_add u32_mod (get_or_zero (lookup j ms)) 1) ms,
  insert_comm j k (wrapping_add u32_mod (get_or_zero (lookup j ms)) 1)
      (wrapping_add u32_mod (get_or_zero (lookup k ms)) 1) ms,
)

-- The multiset of a list of values.
abbrev pub ms_of : List ℕ → Multiset
ms_of [] = []
ms_of (v ∷ vs) = ms_inc v (ms_of vs)

-- The least and the greatest of a list, 0 if it is empty.
abbrev pub extend_min : Option ℕ → ℕ → ℕ
extend_min none v = v
extend_min (some m) v = min v m

abbrev pub extend_max : Option ℕ → ℕ → ℕ
extend_max none v = v
extend_max (some m) v = max v m

first_key-insert :
    (k c : ℕ) (ms : Multiset) → first_key (insert k c ms) ≡ some (extend_min (first_key ms) k)
unfolding insert
first_key-insert k c [] = refl
first_key-insert k c ((j, d) ∷ ms) = ground arith

last_key-some :
    (n j d : ℕ) (ms : Multiset)
    → Above n ((j, d) ∷ ms)
    → (m : ℕ) × (last_key ((j, d) ∷ ms) ≡ some m) × (j ≤ m)
last_key-some n j d [] s = (j, refl, omega arith)
last_key-some n j d ((i, e) ∷ ms) s =
    let (m, found, le) = last_key-some (suc j) i e ms s.1 in (m, found, omega (arith, s.1.0))

last_key-behind :
    (j d k c : ℕ) (ms : Multiset) → last_key ((j, d) ∷ insert k c ms) ≡ last_key (insert k c ms)
unfolding insert
last_key-behind j d k c [] = refl
last_key-behind j d k c ((i, e) ∷ ms) = ground arith

last_key-insert :
    (n k c : ℕ) (ms : Multiset)
    → Above n ms
    → last_key (insert k c ms) ≡ some (extend_max (last_key ms) k)
unfolding insert
last_key-insert n k c [] s = refl
last_key-insert n k c ((j, d) ∷ []) s = ground arith
last_key-insert n k c ((j, d) ∷ (i, e) ∷ ms) s = ground (
  arith,
  last_key-behind j d k c ((i, e) ∷ ms),
  last_key-insert (suc j) k c ((i, e) ∷ ms) s.1,
  last_key-some (suc j) i e ms s.1,
)

pub ms_of-IsSorted : (vs : List ℕ) → IsSorted (ms_of vs)
ms_of-IsSorted [] = tt
ms_of-IsSorted (v ∷ vs) = ms_inc-IsSorted v (ms_of vs) (ms_of-IsSorted vs)

-- A value occurs at least once, and not more often than there are values.
pub lookup-ms_of :
    (key c : ℕ) (vs : List ℕ)
    → length vs < u32_mod
    → lookup key (ms_of vs) ≡ some c
    → (0 < c) × (c ≤ length vs)
unfolding ms_inc lookup
lookup-ms_of key c [] few e = ground arith
lookup-ms_of key c (v ∷ vs) few e = elim (Option-cases (lookup v (ms_of vs))) [
  | inl absent ↦ ground (
    arith,
    lookup-insert v key (wrapping_add u32_mod (get_or_zero (lookup v (ms_of vs))) 1) (ms_of vs),
    lookup-ms_of key c vs,
  )
  | inr (d, present) ↦ ground (
    arith,
    lookup-insert v key (wrapping_add u32_mod (get_or_zero (lookup v (ms_of vs))) 1) (ms_of vs),
    lookup-ms_of key c vs,
    lookup-ms_of v d vs,
  )
]

-- The least and the greatest of the values, 0 of none.
abbrev pub least : List ℕ → ℕ
least [] = 0
least (v ∷ []) = v
least (v ∷ w ∷ vs) = min v (least (w ∷ vs))

abbrev pub greatest : List ℕ → ℕ
greatest [] = 0
greatest (v ∷ vs) = max v (greatest vs)

first_key-ms_of : (v : ℕ) (vs : List ℕ) → first_key (ms_of (v ∷ vs)) ≡ some (least (v ∷ vs))
unfolding ms_inc
first_key-ms_of v [] = first_key-insert v _ []
first_key-ms_of v (w ∷ vs) = ground (
  arith,
  first_key-insert v (wrapping_add u32_mod (get_or_zero (lookup v (ms_of (w ∷ vs)))) 1)
      (ms_of (w ∷ vs)),
  first_key-ms_of w vs,
)

last_key-ms_of : (v : ℕ) (vs : List ℕ) → last_key (ms_of (v ∷ vs)) ≡ some (greatest (v ∷ vs))
unfolding ms_inc
last_key-ms_of v [] =
    ground (arith, last_key-insert 0 v (wrapping_add u32_mod (get_or_zero (lookup v [])) 1) [] tt)
last_key-ms_of v (w ∷ vs) = ground (
  arith,
  last_key-insert 0 v (wrapping_add u32_mod (get_or_zero (lookup v (ms_of (w ∷ vs)))) 1)
      (ms_of (w ∷ vs)) (ms_of-IsSorted (w ∷ vs)),
  last_key-ms_of w vs,
)

-- The extremes that a bucket reports are those of the values that went in.
pub ms_min_max-ms_of : (vs : List ℕ) → ms_min_max (ms_of vs) ≡ (least vs, greatest vs)
unfolding ms_min_max
ms_min_max-ms_of [] = refl
ms_min_max-ms_of (v ∷ vs) = ground (arith, first_key-ms_of v vs, last_key-ms_of v vs)
