-- ===== src/Aggregate/State/Limits.antt =====
-- Absorbing a span in tracing-console/src/aggregate/state.rs leaves the limits and the split keys alone.
use tracing_console.Base.{
  ℕ, zero, suc, ◌≡◌, refl, ◌∙◌, inl, inr, Bool, Option-cases, List, [], ◌∷◌, ◌++◌, Option, none,
  some, length, arith,
}
use tracing_console.Base.Text.{Text}
use tracing_console.Base.OrdMap.{lookup, remove}
use tracing_console.Host.Protocol.{WireSpan}
use tracing_console.Aggregate.Bucket.{BucketKey}
use tracing_console.Aggregate.State.{
  Entry, Aggregator, Resolution, parent_missing, bucketed, park_pending, take_waiters, rebucket,
  bump_parent_self, leave_bucket, give_back, evict_entry, evict_oldest, make_room, charge_parent,
  enter_ring, commit, drain, absorb_bucketed, resolve, absorb_resolved,
}
use tracing_console.Aggregate.State.Evict.{evict_found, evict_oldest-found}

-- The limits are never changed.
abbrev pub SameLimits : Aggregator → Aggregator → Type 0
SameLimits a b =
    (b.pending_cap ≡ a.pending_cap)
    × (b.history_budget ≡ a.history_budget)
    × (b.split_keys ≡ a.split_keys)

abbrev Limited : Aggregator → Option (Aggregator × List ℕ) → Type 0
Limited a result =
    (b : Aggregator) (inserted : List ℕ) → result ≡ some (b, inserted) → SameLimits a b

park_pending-SameLimits :
    (p : ℕ) (span : WireSpan) (a : Aggregator) → SameLimits a (park_pending p span a)
unfolding park_pending
park_pending-SameLimits p span a = (refl, refl, refl)

take_waiters-SameLimits : (id : ℕ) (a : Aggregator) → SameLimits a (take_waiters id a).1
unfolding take_waiters
take_waiters-SameLimits id a = ground arith

bump_parent_self-SameLimits : (p sum : ℕ) (a : Aggregator) → SameLimits a (bump_parent_self p sum a)
unfolding bump_parent_self rebucket
bump_parent_self-SameLimits p sum a = ground arith

give_back-SameLimits : (entry : Entry) (a : Aggregator) → SameLimits a (give_back entry a)
unfolding give_back bump_parent_self rebucket
give_back-SameLimits entry a = ground arith

leave_bucket-SameLimits : (entry : Entry) (a : Aggregator) → SameLimits a (leave_bucket entry a)
unfolding leave_bucket
leave_bucket-SameLimits entry a = ground arith

evict_entry-SameLimits :
    (id : ℕ) (entry : Entry) (a : Aggregator) → SameLimits a (evict_entry id entry a)
unfolding evict_entry
evict_entry-SameLimits id entry a = grind (
  arith,
  give_back-SameLimits,
  leave_bucket-SameLimits,
  take_waiters-SameLimits id (record a { by_id = remove id a.by_id }),
)

evict_found-SameLimits :
    (id : ℕ) (found : Option Entry) (a : Aggregator) → SameLimits a (evict_found id found a)
evict_found-SameLimits id none a = (refl, refl, refl)
evict_found-SameLimits id (some entry) a = evict_entry-SameLimits id entry a

evict_oldest_from-SameLimits :
    (a : Aggregator) (order : List ℕ) → a.order ≡ order → SameLimits a (evict_oldest a)
unfolding evict_oldest
evict_oldest_from-SameLimits a [] e = ground arith
evict_oldest_from-SameLimits a (id ∷ order) e =
    rw (evict_oldest-found a id order e)
      (evict_found-SameLimits id (lookup id a.by_id) (record a { order = order }))

evict_oldest-SameLimits : (a : Aggregator) → SameLimits a (evict_oldest a)
evict_oldest-SameLimits a = evict_oldest_from-SameLimits a a.order refl

make_room-SameLimits : (fuel : ℕ) (a b : Aggregator) → make_room fuel a ≡ some b → SameLimits a b
unfolding make_room
make_room-SameLimits zero a b e = absurd (cc)
make_room-SameLimits (suc fuel) a b e =
    ground (arith, evict_oldest-SameLimits a, make_room-SameLimits fuel (evict_oldest a) b)

charge_parent-SameLimits :
    (in_ring : Bool) (parent : Option ℕ) (total : ℕ) (a : Aggregator)
    → SameLimits a (charge_parent in_ring parent total a)
unfolding charge_parent bump_parent_self rebucket
charge_parent-SameLimits in_ring none total a = ground arith
charge_parent-SameLimits in_ring (some p) total a = ground arith

enter_ring-SameLimits :
    (span : WireSpan) (bucket : BucketKey) (total_ns self_ns : ℕ) (a : Aggregator)
    → SameLimits a (enter_ring span bucket total_ns self_ns a)
unfolding enter_ring
enter_ring-SameLimits span bucket total_ns self_ns a = (refl, refl, refl)

commit-SameLimits :
    (span : WireSpan) (bucket : BucketKey) (in_ring : Bool) (a b : Aggregator)
    → commit span bucket in_ring a ≡ some b
    → SameLimits a b
unfolding commit
commit-SameLimits span bucket in_ring a b e =
    elim (Option-cases (make_room (suc (length a.order)) a)) [
      | inl stuck ↦ absurd (ground (arith, stuck))
      | inr (roomy, made) ↦ grind (
        arith,
        make_room-SameLimits (suc (length a.order)) a roomy made,
        charge_parent-SameLimits,
        enter_ring-SameLimits,
      )
    ]

drain-SameLimits :
    (call : WireSpan → Aggregator → List ℕ → Option (Aggregator × List ℕ))
    → ((span : WireSpan) (a : Aggregator) (inserted : List ℕ) → Limited a (call span a inserted))
    → (waiters : List WireSpan) (a : Aggregator) (inserted : List ℕ)
    → Limited a (drain call waiters a inserted)
unfolding drain
drain-SameLimits call calls [] a inserted b out e = ground arith
drain-SameLimits call calls (w ∷ waiters) a inserted b out e =
    elim (Option-cases (call w a inserted)) [
      | inl stuck ↦ absurd (ground (arith, stuck))
      | inr ((a1, inserted1), made) ↦
          let first = calls w a inserted a1 inserted1 made in
          let rest =
            drain-SameLimits call calls waiters a1 inserted1 b out (ground (arith, made)) in
          (rest.0 ∙ first.0, rest.1 ∙ first.1, rest.2 ∙ first.2)
    ]

absorb_bucketed-SameLimits :
    (call : WireSpan → Aggregator → List ℕ → Option (Aggregator × List ℕ))
    → ((span : WireSpan) (a : Aggregator) (inserted : List ℕ) → Limited a (call span a inserted))
    → (span : WireSpan) (bucket : BucketKey) (in_ring : Bool) (a : Aggregator) (inserted : List ℕ)
    → Limited a (absorb_bucketed call span bucket in_ring a inserted)
unfolding absorb_bucketed
absorb_bucketed-SameLimits call calls span bucket in_ring a inserted b out e =
    elim (Option-cases (commit span bucket in_ring a)) [
      | inl stuck ↦ absurd (ground (arith, stuck))
      | inr (committed, made) ↦
          let first = commit-SameLimits span bucket in_ring a committed made in
          let taken = take_waiters-SameLimits span.id committed in
          let rest =
            drain-SameLimits call calls (take_waiters span.id committed).0
              (take_waiters span.id committed).1 (inserted ++ span.id ∷ []) b out
              (ground (arith, made)) in
          (rest.0 ∙ taken.0 ∙ first.0, rest.1 ∙ taken.1 ∙ first.1, rest.2 ∙ taken.2 ∙ first.2)
    ]

module _ (show_f64 : ℕ → Text) where
  resolution-SameLimits :
      (fuel : ℕ) (span : WireSpan) (a : Aggregator) (inserted : List ℕ) (found : Resolution)
      → ((s : WireSpan) (x : Aggregator) (i : List ℕ)
          → Limited x (absorb_resolved show_f64 fuel s x i))
      → resolve show_f64 a span ≡ found
      → Limited a (absorb_resolved show_f64 (suc fuel) span a inserted)
  unfolding absorb_resolved
  resolution-SameLimits fuel span a inserted (parent_missing p) calls e b out done =
      ground (arith, e, park_pending-SameLimits p span a)
  resolution-SameLimits fuel span a inserted (bucketed bucket in_ring) calls e b out done =
      absorb_bucketed-SameLimits (absorb_resolved show_f64 fuel) calls span bucket in_ring a
        inserted b out (ground (arith, e))

  pub absorb_resolved-SameLimits :
      (fuel : ℕ) (span : WireSpan) (a : Aggregator) (inserted : List ℕ)
      → Limited a (absorb_resolved show_f64 fuel span a inserted)
  unfolding absorb_resolved
  absorb_resolved-SameLimits zero span a inserted b out e = absurd (cc)
  absorb_resolved-SameLimits (suc fuel) span a inserted b out e =
      resolution-SameLimits fuel span a inserted (resolve show_f64 a span)
        (absorb_resolved-SameLimits fuel) refl b out e
