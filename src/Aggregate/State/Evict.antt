-- ===== src/Aggregate/State/Evict.antt =====
-- Eviction from the ring, in tracing-console/src/aggregate/state.rs: `evict_oldest` and the loop of
-- `absorb_resolved` that calls it until the ring has room.
use tracing_console.Base.{
  ℕ, zero, suc, ◌-◌, ◌<◌, ◌≤◌, ◌≡◌, refl, ap, ◌∙◌, List, [], ◌∷◌, Option, none, some, leb, arith,
  length, inl, inr, Bool-cases, leb→le,
}
use tracing_console.Base.OrdMap.{lookup}
use tracing_console.Aggregate.State.{
  Entry, Aggregator, take_waiters, rebucket, bump_parent_self, leave_bucket, give_back, evict_entry,
  evict_oldest, make_room,
}

-- The ring and its limits are those of another state.
pub record SameRing (a b : Aggregator) : Type 0 where
  pub same_order : b.order ≡ a.order
  pub same_budget : b.history_budget ≡ a.history_budget
  pub same_cap : b.pending_cap ≡ a.pending_cap

pub take_waiters-SameRing : (id : ℕ) (a : Aggregator) → SameRing a (take_waiters id a).1
unfolding take_waiters
take_waiters-SameRing id a = ground arith

rebucket-SameRing :
    (bucket : _) (total old_self new_self : ℕ) (a : Aggregator)
    → SameRing a (rebucket bucket total old_self new_self a)
unfolding rebucket
rebucket-SameRing bucket total old_self new_self a = ground arith

pub bump_parent_self-SameRing : (p sum : ℕ) (a : Aggregator) → SameRing a (bump_parent_self p sum a)
unfolding bump_parent_self rebucket
bump_parent_self-SameRing p sum a = ground arith

leave_bucket-SameRing : (entry : Entry) (a : Aggregator) → SameRing a (leave_bucket entry a)
unfolding leave_bucket
leave_bucket-SameRing entry a = ground arith

give_back-SameRing : (entry : Entry) (a : Aggregator) → SameRing a (give_back entry a)
unfolding give_back bump_parent_self rebucket
give_back-SameRing entry a = ground arith

evict_entry-SameRing :
    (id : ℕ) (entry : Entry) (a : Aggregator) → SameRing a (evict_entry id entry a)
unfolding evict_entry give_back bump_parent_self rebucket leave_bucket take_waiters
evict_entry-SameRing id entry a = ground arith

-- `evict_oldest` of a ring whose head is `id`, past the removal of the head.
abbrev pub evict_found : ℕ → Option Entry → Aggregator → Aggregator
evict_found id none a = a
evict_found id (some entry) a = evict_entry id entry a

evict_found-SameRing :
    (id : ℕ) (found : Option Entry) (a : Aggregator) → SameRing a (evict_found id found a)
evict_found-SameRing id none a = record { same_order = refl; same_budget = refl; same_cap = refl }
evict_found-SameRing id (some entry) a = evict_entry-SameRing id entry a

pub evict_oldest-found :
    (a : Aggregator) (id : ℕ) (order : List ℕ)
    → a.order ≡ id ∷ order
    → evict_oldest a ≡ evict_found id (lookup id a.by_id) (record a { order = order })
unfolding evict_oldest
evict_oldest-found a id order e = ground arith

evict_oldest_cases :
    (a : Aggregator) (order : List ℕ)
    → a.order ≡ order
    → (length (evict_oldest a).order ≡ length order - 1)
      × ((evict_oldest a).history_budget ≡ a.history_budget)
unfolding evict_oldest
evict_oldest_cases a [] e = ground arith
evict_oldest_cases a (id ∷ order) e =
    let same = evict_found-SameRing id (lookup id a.by_id) (record a { order = order }) in
    rw (evict_oldest-found a id order e)
      (omega (arith, ap length same.same_order), same.same_budget)

-- Eviction takes the head of the ring and keeps the limits.
evict_oldest-order :
    (a : Aggregator)
    → (length (evict_oldest a).order ≡ length a.order - 1)
      × ((evict_oldest a).history_budget ≡ a.history_budget)
evict_oldest-order a = evict_oldest_cases a a.order refl

-- The loop that makes room ends within one round more than the ring is long, for every positive
-- budget, and leaves the ring shorter than the budget.
pub make_room_total :
    (fuel : ℕ) (a : Aggregator)
    → 0 < a.history_budget
    → length a.order < fuel
    → (a' : Aggregator) × (make_room fuel a ≡ some a')
      × (length a'.order < a.history_budget)
      × (length a'.order ≤ length a.order)
      × (a'.history_budget ≡ a.history_budget)
unfolding make_room
make_room_total zero a positive enough = absurd (omega arith)
make_room_total (suc fuel) a positive enough =
    elim (Bool-cases (leb a.history_budget (length a.order))) [
      | inl full ↦
          let (a', made, below, shorter, same) =
            make_room_total fuel (evict_oldest a) (omega (arith, (evict_oldest-order a).1))
              (omega (arith, (evict_oldest-order a).0, leb→le _ _ full)) in
          (
            a',
            rw full made,
            omega (arith, (evict_oldest-order a).1),
            omega (arith, (evict_oldest-order a).0),
            same ∙ (evict_oldest-order a).1,
          )
      | inr room ↦ (a, rw room refl, ground arith, omega arith, refl)
    ]

-- With a budget of 0 the loop never ends: no number of rounds is enough.
pub make_room_diverges :
    (fuel : ℕ) (a : Aggregator) → a.history_budget ≡ 0 → make_room fuel a ≡ none
unfolding make_room
make_room_diverges zero a e = refl
make_room_diverges (suc fuel) a e =
    ground (arith, make_room_diverges fuel (evict_oldest a), (evict_oldest-order a).1)
