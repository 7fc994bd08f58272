-- ===== src/Aggregate/State/Absorb.antt =====
-- `absorb` of tracing-console/src/aggregate/state.rs: that it ends, and the invariant that it keeps.
use tracing_console.Base.{
  ℕ, zero, suc, ◌+◌, ◌-◌, ◌<◌, ◌≤◌, ◌≡◌, refl, ◌∙◌, Bool, List, [], ◌∷◌, ◌++◌, Option, none, some,
  arith, length, length-append, Option-cases, inl, inr,
}
use tracing_console.Base.Text.{Text}
use tracing_console.Base.OrdMap.{lookup, remove}
use tracing_console.Host.Protocol.{WireSpan}
use tracing_console.Aggregate.Bucket.{BucketKey, u64_mod}
use tracing_console.Aggregate.State.{
  Entry, Aggregator, Resolution, parent_missing, bucketed, new, take_waiters, rebucket,
  bump_parent_self, leave_bucket, give_back, evict_entry, evict_oldest, make_room, closed_or_opened,
  sum_or_zero, park_pending, resolve, charge_parent, enter_ring, commit, drain, absorb_bucketed,
  absorb_resolved, absorb,
}
use tracing_console.Aggregate.State.Evict.{
  SameRing, make_room_total, evict_found, evict_oldest-found, take_waiters-SameRing,
}
use tracing_console.Aggregate.State.Parked.{
  IsParked, SameParked, SameParked-IsParked, take_waiters-IsParked, park_pending-IsParked,
}

-- The ring holds at most the budget, which is positive, and the waiting spans are in order.
pub record IsAggregator (a : Aggregator) : Type 0 where
  pub parked_ok : IsParked a
  pub positive : 0 < a.history_budget
  pub bounded : length a.order ≤ a.history_budget

give_back-SameParked : (entry : Entry) (a : Aggregator) → SameParked a (give_back entry a)
unfolding give_back bump_parent_self rebucket
give_back-SameParked entry a = ground arith

leave_bucket-SameParked : (entry : Entry) (a : Aggregator) → SameParked a (leave_bucket entry a)
unfolding leave_bucket
leave_bucket-SameParked entry a = ground arith

-- What eviction does to the waiting spans: those of the evicted one go.
evict_entry-IsParked :
    (id : ℕ) (entry : Entry) (a : Aggregator)
    → IsParked a
    → IsParked (evict_entry id entry a) × ((evict_entry id entry a).pending_len ≤ a.pending_len)
unfolding evict_entry
evict_entry-IsParked id entry a v =
    let taken = take_waiters id (record a { by_id = remove id a.by_id }) in
    let (ok, fewer) =
      take_waiters-IsParked id (record a { by_id = remove id a.by_id })
        (record {
          filed = v.filed;
          counted = v.counted;
          capped = v.capped;
          cap_fits = v.cap_fits;
        }) in
    let a2 = record taken.1 { child_sum = remove id taken.1.child_sum } in
    let a3 = leave_bucket entry a2 in
    let left = leave_bucket-SameParked entry a2 in
    let given = give_back-SameParked entry a3 in
    (
      SameParked-IsParked a3 (give_back entry a3) given (
          SameParked-IsParked a2 a3 left (record {
            filed = ok.filed;
            counted = ok.counted;
            capped = ok.capped;
            cap_fits = ok.cap_fits;
          })),
      omega (arith, given.same_len, left.same_len),
    )

evict_found-IsParked :
    (id : ℕ) (found : Option Entry) (a : Aggregator)
    → IsParked a
    → IsParked (evict_found id found a) × ((evict_found id found a).pending_len ≤ a.pending_len)
evict_found-IsParked id none a v = (v, omega arith)
evict_found-IsParked id (some entry) a v = evict_entry-IsParked id entry a v

evict_cases :
    (a : Aggregator) (order : List ℕ)
    → a.order ≡ order
    → IsParked a
    → IsParked (evict_oldest a) × ((evict_oldest a).pending_len ≤ a.pending_len)
unfolding evict_oldest
evict_cases a [] e v = ground arith
evict_cases a (id ∷ order) e v = rw (evict_oldest-found a id order e) (
    evict_found-IsParked id (lookup id a.by_id) (record a { order = order })
      (record { filed = v.filed; counted = v.counted; capped = v.capped; cap_fits = v.cap_fits }))

make_room-IsParked :
    (fuel : ℕ) (a a' : Aggregator)
    → make_room fuel a ≡ some a'
    → IsParked a
    → IsParked a' × (a'.pending_len ≤ a.pending_len)
unfolding make_room
make_room-IsParked zero a a' e v = cc
make_room-IsParked (suc fuel) a a' e v =
    let (ok, fewer) = evict_cases a a.order refl v in
    ground (arith, make_room-IsParked fuel (evict_oldest a) a')

charge_parent-Same :
    (in_ring : Bool) (parent : Option ℕ) (total : ℕ) (a : Aggregator)
    → SameParked a (charge_parent in_ring parent total a)
      × SameRing a (charge_parent in_ring parent total a)
unfolding charge_parent bump_parent_self rebucket
charge_parent-Same in_ring none total a = ground arith
charge_parent-Same in_ring (some p) total a = ground arith

enter_ring-IsAggregator :
    (span : WireSpan) (bucket : BucketKey) (total_ns self_ns : ℕ) (a : Aggregator)
    → IsParked a
    → length a.order < a.history_budget
    → IsAggregator (enter_ring span bucket total_ns self_ns a)
unfolding enter_ring
enter_ring-IsAggregator span bucket total_ns self_ns a v room = record {
  parked_ok = record {
    filed = v.filed;
    counted = v.counted;
    capped = v.capped;
    cap_fits = v.cap_fits;
  };
  positive = omega arith;
  bounded = omega (arith, length-append a.order (span.id ∷ []));
}

enter_ring-pending_len :
    (span : WireSpan) (bucket : BucketKey) (total_ns self_ns : ℕ) (a : Aggregator)
    → (enter_ring span bucket total_ns self_ns a).pending_len ≡ a.pending_len
unfolding enter_ring
enter_ring-pending_len span bucket total_ns self_ns a = refl

-- The span is committed to a ring that had room for it, or has had room made.
commit_total :
    (span : WireSpan) (bucket : BucketKey) (in_ring : Bool) (a : Aggregator)
    → IsAggregator a
    → (a' : Aggregator) × (commit span bucket in_ring a ≡ some a')
      × IsAggregator a'
      × (a'.pending_len ≤ a.pending_len)
unfolding commit
commit_total span bucket in_ring a v =
    let (roomy, made, below, shorter, same) =
      make_room_total (suc (length a.order)) a v.positive (omega arith) in
    let (ok, fewer) = make_room-IsParked (suc (length a.order)) a roomy made v.parked_ok in
    let total_ns = closed_or_opened span - span.opened_at_ns in
    let self_ns = total_ns - sum_or_zero (lookup span.id a.child_sum) in
    let charged = charge_parent in_ring span.parent_id total_ns roomy in
    let (parked, ring) = charge_parent-Same in_ring span.parent_id total_ns roomy in
    (
      enter_ring span bucket total_ns self_ns charged,
      rw (commit, made) refl,
      enter_ring-IsAggregator span bucket total_ns self_ns charged
          (SameParked-IsParked roomy charged parked ok)
          (rw (ring.same_order, ring.same_budget, same) below),
      omega (arith, enter_ring-pending_len span bucket total_ns self_ns charged, parked.same_len),
    )

-- A call of `absorb_resolved` gives a result, keeps the invariant, and parks at most one span more.
unfoldable pub Absorbed : Aggregator → Option (Aggregator × List ℕ) → Type 0
Absorbed a result =
    (a' : Aggregator) × (inserted : List ℕ) × (result ≡ some (a', inserted))
    × IsAggregator a'
    × (a'.pending_len ≤ a.pending_len + 1)

-- `absorb` as a parameter: what the recursive calls with this much fuel do.
unfoldable pub Absorbs :
    ℕ → (WireSpan → Aggregator → List ℕ → Option (Aggregator × List ℕ)) → Type 0
Absorbs fuel call =
    (span : WireSpan) (a : Aggregator) (inserted : List ℕ)
    → IsAggregator a
    → a.pending_len < fuel
    → Absorbed a (call span a inserted)

drain_total :
    (call : WireSpan → Aggregator → List ℕ → Option (Aggregator × List ℕ)) (fuel : ℕ)
    → Absorbs fuel call
    → (waiters : List WireSpan) (a : Aggregator) (inserted : List ℕ) → IsAggregator a
    → a.pending_len + length waiters ≤ fuel
    → (a' : Aggregator) × (inserted' : List ℕ) × (drain call waiters a inserted
        ≡ some (a', inserted'))
      × IsAggregator a'
      × (a'.pending_len ≤ a.pending_len + length waiters)
unfolding drain Absorbs Absorbed
drain_total call fuel calls [] a inserted v enough = (a, inserted, refl, v, omega arith)
drain_total call fuel calls (w ∷ waiters) a inserted v enough =
    let (a1, inserted1, e, ok, fewer) = calls w a inserted v (omega arith) in
    let (a2, inserted2, e', ok', fewer') =
      drain_total call fuel calls waiters a1 inserted1 ok (omega arith) in
    (a2, inserted2, rw (drain, e) e', ok', omega arith)

absorb_bucketed_total :
    (call : WireSpan → Aggregator → List ℕ → Option (Aggregator × List ℕ)) (fuel : ℕ)
    → Absorbs fuel call
    → (span : WireSpan) (bucket : BucketKey) (in_ring : Bool) (a : Aggregator) (inserted : List ℕ)
    → IsAggregator a
    → a.pending_len ≤ fuel
    → Absorbed a (absorb_bucketed call span bucket in_ring a inserted)
unfolding absorb_bucketed Absorbed
absorb_bucketed_total call fuel calls span bucket in_ring a inserted v enough =
    let (committed, e, ok, fewer) = commit_total span bucket in_ring a v in
    let (parked, taken) = take_waiters-IsParked span.id committed ok.parked_ok in
    let ring = take_waiters-SameRing span.id committed in
    let (a', inserted', e', ok', fewer') =
      drain_total call fuel calls (take_waiters span.id committed).0
        (take_waiters span.id committed).1 (inserted ++ span.id ∷ [])
        (record {
          parked_ok = parked;
          positive = rw ring.same_budget ok.positive;
          bounded = rw (ring.same_order, ring.same_budget) ok.bounded;
        })
        (omega arith) in
    (a', inserted', rw (absorb_bucketed, e) e', ok', omega arith)

module _ (show_f64 : ℕ → Text) where
  resolved_total :
      (fuel : ℕ) (span : WireSpan) (a : Aggregator) (inserted : List ℕ) (r : Resolution)
      → Absorbs fuel (absorb_resolved show_f64 fuel)
      → resolve show_f64 a span ≡ r
      → IsAggregator a
      → a.pending_len < suc fuel
      → Absorbed a (absorb_resolved show_f64 (suc fuel) span a inserted)
  unfolding absorb_resolved Absorbed
  resolved_total fuel span a inserted (parent_missing p) calls e v enough =
      let (parked, fewer, same_order, same_budget) = park_pending-IsParked p span a v.parked_ok in
      (
        park_pending p span a,
        inserted,
        rw (absorb_resolved, e) refl,
        record {
          parked_ok = parked;
          positive = rw same_budget v.positive;
          bounded = rw (same_order, same_budget) v.bounded;
        },
        fewer,
      )
  resolved_total fuel span a inserted (bucketed bucket in_ring) calls e v enough =
      let (a', inserted', e', ok, fewer) =
        absorb_bucketed_total (absorb_resolved show_f64 fuel) fuel calls span bucket in_ring a
          inserted v (omega arith) in
      (a', inserted', rw (absorb_resolved, e) e', ok, fewer)

  pub absorb_resolved-Absorbs : (fuel : ℕ) → Absorbs fuel (absorb_resolved show_f64 fuel)
  unfolding Absorbs
  absorb_resolved-Absorbs zero span a inserted v enough = absurd (omega arith)
  absorb_resolved-Absorbs (suc fuel) span a inserted v enough =
      resolved_total fuel span a inserted (resolve show_f64 a span) (absorb_resolved-Absorbs fuel)
        refl v enough

  absorb-closed :
      (span : WireSpan) (closed : ℕ) (a : Aggregator)
      → span.closed_at_ns ≡ some closed
      → absorb show_f64 span a ≡ absorb_resolved show_f64 (suc (suc a.pending_len)) span a []
  unfolding absorb
  absorb-closed span closed a e = ground arith

  absorb-open :
      (span : WireSpan) (a : Aggregator)
      → span.closed_at_ns ≡ none
      → absorb show_f64 span a ≡ some (a, [])
  unfolding absorb
  absorb-open span a e = ground arith

  -- On an aggregator that keeps the invariant, so has a positive budget, `absorb` of any span ends with
  -- a result, recursion on the released spans included, and keeps the invariant: the ring holds at most
  -- the budget, the spans that wait for a parent are at most their cap, and their counter is exact.
  pub absorb_total :
      (span : WireSpan) (a : Aggregator)
      → IsAggregator a
      → (a' : Aggregator) × (inserted : List ℕ) × (absorb show_f64 span a ≡ some (a', inserted))
        × IsAggregator a'
  unfolding Absorbs Absorbed
  absorb_total span a v = elim (Option-cases span.closed_at_ns) [
    | inl still_open ↦ (a, [], absorb-open span a still_open, v)
    | inr (closed, e) ↦
        let (a', inserted, done, ok, fewer) =
          absorb_resolved-Absorbs (suc (suc a.pending_len)) span a [] v (omega arith) in
        (a', inserted, absorb-closed span closed a e ∙ done, ok)
  ]

-- A new aggregator of a positive budget that fits its word keeps the invariant.
pub new-IsAggregator :
    (history_budget : ℕ)
    → 0 < history_budget
    → history_budget + 2 < u64_mod
    → IsAggregator (new history_budget)
unfolding new
new-IsAggregator history_budget positive small = record {
  parked_ok = record { filed = tt; counted = refl; capped = omega arith; cap_fits = grind arith };
  positive = positive;
  bounded = omega arith;
}
