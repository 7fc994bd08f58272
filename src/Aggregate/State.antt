-- ===== src/Aggregate/State.antt =====
-- `Aggregator` of tracing-console/src/aggregate/state.rs. A step that recurses takes fuel, and a `none`
-- is that the fuel ran out.
pub mod Keys
pub mod Evict
pub mod Parked
pub mod Absorb
pub mod Rebuild
pub mod Limits
pub mod Refeed
use tracing_console.Base.{
  ℕ, zero, suc, ◌+◌, ◌-◌, ◌/◌, max, Bool, true, false, List, [], ◌∷◌, ◌++◌, Option, none, some,
  if◌then◌else◌, ltb, leb, ◌==◌, Eq, ◌↔◌, ◌≡◌, arith, length, any,
}
use tracing_console.Base.Assoc
use tracing_console.Base.OrdMap.{lookup, insert, remove}
use tracing_console.Base.Text.{Text, text_eq, list_eq, pair_eq}
use tracing_console.Host.Protocol.{WireSpan, to_string_value}
use tracing_console.Aggregate.Bucket.{
  BucketKey, BucketState, default_bucket, add, remove_contribution, is_empty, wrapping_add,
  wrapping_sub, u64_mod,
}
use Keys.{key_eq, collect_splits}

pub record Entry : Type 0 where
  pub span : WireSpan
  pub bucket : BucketKey
  pub total_ns : ℕ
  pub self_ns : ℕ

pub record Aggregator : Type 0 where
  pub order : List ℕ
  pub by_id : List (ℕ × Entry)
  pub child_sum : List (ℕ × ℕ)
  pub pending : List (ℕ × List WireSpan)
  pub pending_len : ℕ
  pub pending_cap : ℕ
  pub buckets : List (BucketKey × BucketState)
  pub split_keys : List Text
  pub history_budget : ℕ

unfoldable pub new : ℕ → Aggregator
new history_budget = record {
  order = [];
  by_id = [];
  child_sum = [];
  pending = [];
  pending_len = 0;
  pending_cap = max (history_budget / 4) 1;
  buckets = [];
  split_keys = [];
  history_budget = history_budget;
}

infixl 5 ◌>>=◌
abbrev ◌>>=◌ : {A B : Type 0} → Option A → (A → Option B) → Option B
none >>= f = none
some a >>= f = f a

abbrev pub waiters_of : Option (List WireSpan) → List WireSpan
waiters_of none = []
waiters_of (some waiters) = waiters

-- `park_pending`: over the cap, the buckets of the lowest missing parents are dropped whole.
unfoldable pub trim_pending : ℕ → List (ℕ × List WireSpan) → ℕ → List (ℕ × List WireSpan) × ℕ
trim_pending cap [] len = ([], len)
trim_pending cap ((k, dropped) ∷ pending) len =
    if ltb cap len
    then trim_pending cap pending (wrapping_sub u64_mod len (length dropped))
    else ((k, dropped) ∷ pending, len)

unfoldable pub park_pending : ℕ → WireSpan → Aggregator → Aggregator
park_pending missing_parent span a =
    let parked =
      insert missing_parent (waiters_of (lookup missing_parent a.pending) ++ span ∷ []) a.pending in
    let (pending, len) = trim_pending a.pending_cap parked (a.pending_len + 1) in
    record a { pending = pending; pending_len = len }

-- `pending.remove(&id)`: the waiters, and the aggregator without them.
unfoldable pub take_waiters : ℕ → Aggregator → List WireSpan × Aggregator
take_waiters id a = elim (lookup id a.pending) [
  | none ↦ ([], a)
  | some waiters ↦ (
    waiters,
    record a {
      pending = remove id a.pending;
      pending_len = wrapping_sub u64_mod a.pending_len (length waiters);
    },
  )
]

-- `bump_parent_self`: a parent's bucket takes its self time over again.
unfoldable pub rebucket : BucketKey → ℕ → ℕ → ℕ → Aggregator → Aggregator
rebucket bucket total old_self new_self a = elim (Assoc.lookup key_eq bucket a.buckets) [
  | none ↦ a
  | some state ↦ record a {
    buckets =
        Assoc.insert key_eq bucket (add total new_self (remove_contribution total old_self state))
          a.buckets;
  }
]

unfoldable pub bump_parent_self : ℕ → ℕ → Aggregator → Aggregator
unfolding rebucket
bump_parent_self parent_id new_child_sum a = elim (lookup parent_id a.by_id) [
  | none ↦ a
  | some parent ↦
      let new_self = parent.total_ns - new_child_sum in
      if new_self == parent.self_ns
      then a
      else rebucket parent.bucket parent.total_ns parent.self_ns new_self
          (record a { by_id = insert parent_id (record parent { self_ns = new_self }) a.by_id })
]

-- The evicted span's part of its bucket; an empty bucket goes.
unfoldable pub leave_bucket : Entry → Aggregator → Aggregator
leave_bucket entry a = elim (Assoc.lookup key_eq entry.bucket a.buckets) [
  | none ↦ a
  | some state ↦
      let state' = remove_contribution entry.total_ns entry.self_ns state in
      record a {
        buckets =
            if is_empty state'
            then Assoc.remove key_eq entry.bucket a.buckets
            else Assoc.insert key_eq entry.bucket state' a.buckets;
      }
]

-- The evicted span's total, given back to a parent that is in the ring.
unfoldable pub give_back : Entry → Aggregator → Aggregator
unfolding bump_parent_self
give_back entry a = elim entry.span.parent_id [
  | none ↦ a
  | some parent_id ↦ elim (lookup parent_id a.by_id) [
    | none ↦ a
    | some parent ↦ elim (lookup parent_id a.child_sum) [
      | none ↦ a
      | some sum ↦
          let new_sum = sum - entry.total_ns in
          bump_parent_self parent_id new_sum (record a {
            child_sum =
                if new_sum == 0
                then remove parent_id a.child_sum
                else insert parent_id new_sum a.child_sum;
          })
    ]
  ]
]

unfoldable pub evict_entry : ℕ → Entry → Aggregator → Aggregator
unfolding leave_bucket give_back take_waiters
evict_entry id entry a =
    let (orphans, a1) = take_waiters id (record a { by_id = remove id a.by_id }) in
    give_back entry (leave_bucket entry (record a1 { child_sum = remove id a1.child_sum }))

unfoldable pub evict_oldest : Aggregator → Aggregator
unfolding evict_entry
evict_oldest a = elim a.order [
  | [] ↦ a
  | id ∷ order ↦
      let a' = record a { order = order } in
      elim (lookup id a.by_id) [ none ↦ a' | some entry ↦ evict_entry id entry a' ]
]

-- `while order.len() >= history_budget { evict_oldest() }`.
unfoldable pub make_room : ℕ → Aggregator → Option Aggregator
make_room zero a = none
make_room (suc fuel) a =
    let rest = make_room fuel (evict_oldest a) in
    if leb a.history_budget (length a.order) then rest else some a

pub data Resolution : Type 0 where
  parent_missing : ℕ → Resolution
  bucketed : BucketKey → Bool → Resolution

abbrev pub closed_or_opened : WireSpan → ℕ
closed_or_opened span = elim span.closed_at_ns [ none ↦ span.opened_at_ns | some t ↦ t ]

abbrev pub sum_or_zero : Option ℕ → ℕ
sum_or_zero none = 0
sum_or_zero (some sum) = sum

-- Step 4 of `absorb_resolved`: the parent's contribution, if it is still in the ring.
unfoldable pub charge_parent : Bool → Option ℕ → ℕ → Aggregator → Aggregator
charge_parent parent_in_ring none total_ns a = a
charge_parent parent_in_ring (some parent_id) total_ns a = elim (lookup parent_id a.by_id) [
  | none ↦ a
  | some parent ↦
      let new_sum = wrapping_add u64_mod (sum_or_zero (lookup parent_id a.child_sum)) total_ns in
      if parent_in_ring
      then bump_parent_self parent_id new_sum
          (record a { child_sum = insert parent_id new_sum a.child_sum })
      else a
]

abbrev pub bucket_or_default : Option BucketState → BucketState
bucket_or_default none = default_bucket
bucket_or_default (some state) = state

-- Steps 5 and 6: the bucket and the ring.
unfoldable pub enter_ring : WireSpan → BucketKey → ℕ → ℕ → Aggregator → Aggregator
enter_ring span bucket total_ns self_ns a = record a {
  buckets =
      Assoc.insert key_eq bucket
        (add total_ns self_ns (bucket_or_default (Assoc.lookup key_eq bucket a.buckets))) a.buckets;
  order = a.order ++ span.id ∷ [];
  by_id =
      insert span.id
        (record { span = span; bucket = bucket; total_ns = total_ns; self_ns = self_ns }) a.by_id;
}

-- Steps 2 to 6, for a span whose bucket is known.
unfoldable pub commit : WireSpan → BucketKey → Bool → Aggregator → Option Aggregator
unfolding make_room charge_parent enter_ring
commit span bucket parent_in_ring a =
    let total_ns = closed_or_opened span - span.opened_at_ns in
    let self_ns = total_ns - sum_or_zero (lookup span.id a.child_sum) in
    do
      roomy ← make_room (suc (length a.order)) a
      some (
          enter_ring span bucket total_ns self_ns
            (charge_parent parent_in_ring span.parent_id total_ns roomy))

-- The loop over the waiters in step 7; `absorb` is the recursive call.
unfoldable pub drain :
    (WireSpan → Aggregator → List ℕ → Option (Aggregator × List ℕ))
    → List WireSpan
    → Aggregator
    → List ℕ
    → Option (Aggregator × List ℕ)
drain absorb [] a inserted = some (a, inserted)
drain absorb (w ∷ waiters) a inserted = do
  (a', inserted') ← absorb w a inserted
  drain absorb waiters a' inserted'

unfoldable pub absorb_bucketed :
    (WireSpan → Aggregator → List ℕ → Option (Aggregator × List ℕ))
    → WireSpan
    → BucketKey
    → Bool
    → Aggregator
    → List ℕ
    → Option (Aggregator × List ℕ)
absorb_bucketed absorb span bucket parent_in_ring a inserted = do
  committed ← commit span bucket parent_in_ring a
  let (waiters, a') = take_waiters span.id committed
  drain absorb waiters a' (inserted ++ span.id ∷ [])

-- Section over the printing of floats, which field values need.
module _ (show_f64 : ℕ → Text) where
  unfoldable pub resolve_root : Aggregator → WireSpan → BucketKey
  resolve_root a span = record {
    stack = span.name ∷ [];
    splits = collect_splits show_f64 span none a.split_keys;
  }

  unfoldable pub resolve_with_parent : Aggregator → WireSpan → Entry → BucketKey
  resolve_with_parent a span parent = record {
    stack = parent.bucket.stack ++ span.name ∷ [];
    splits = collect_splits show_f64 span (some parent.bucket.splits) a.split_keys;
  }

  unfoldable pub resolve : Aggregator → WireSpan → Resolution
  unfolding resolve_root resolve_with_parent
  resolve a span = elim span.parent_id [
    | none ↦ bucketed (resolve_root a span) false
    | some p ↦ elim (lookup p a.by_id) [
      | none ↦ parent_missing p
      | some parent ↦ bucketed (resolve_with_parent a span parent) true
    ]
  ]

  unfoldable pub absorb_resolved : ℕ → WireSpan → Aggregator → List ℕ → Option (Aggregator × List ℕ)
  absorb_resolved zero span a inserted = none
  absorb_resolved (suc fuel) span a inserted = elim (resolve a span) [
    | parent_missing p ↦ some (park_pending p span a, inserted)
    | bucketed bucket parent_in_ring ↦
        absorb_bucketed (absorb_resolved fuel) span bucket parent_in_ring a inserted
  ]

  -- `absorb`: an open span is ignored. Each nested call has taken a parked span.
  unfoldable pub absorb : WireSpan → Aggregator → Option (Aggregator × List ℕ)
  absorb span a = elim span.closed_at_ns [
    | none ↦ some (a, [])
    | some closed ↦ absorb_resolved (suc (suc a.pending_len)) span a []
  ]
