-- ===== src/Aggregate/State/Parked.antt =====
-- The spans that wait for a missing parent, in tracing-console/src/aggregate/state.rs: `pending` and the
-- counter beside it.
use tracing_console.Base.{
  ℕ, suc, ◌+◌, ◌<◌, ◌≤◌, ◌≡◌, refl, ap, ◌∙◌, sym, List, [], ◌∷◌, ◌++◌, arith, length, length-append,
}
use tracing_console.Base.OrdMap.{
  lookup, insert, remove, IsSorted, Above, insert-Above, remove-Above, Above-mono, lookup-below,
}
use tracing_console.Host.Protocol.{WireSpan}
use tracing_console.Aggregate.Bucket.{wrapping_sub, u64_mod}
use tracing_console.Aggregate.State.{
  Aggregator, waiters_of, take_waiters, trim_pending, park_pending,
}

-- How many spans wait.
abbrev pub waiting : List (ℕ × List WireSpan) → ℕ
waiting [] = 0
waiting ((k, waiters) ∷ pending) = length waiters + waiting pending

-- The waiting spans are filed by parent, the counter is their number, and it stays within the cap.
pub record IsParked (a : Aggregator) : Type 0 where
  pub filed : IsSorted a.pending
  pub counted : a.pending_len ≡ waiting a.pending
  pub capped : a.pending_len ≤ a.pending_cap
  pub cap_fits : a.pending_cap + 1 < u64_mod

-- The waiting spans and their limit are those of another state.
pub record SameParked (a b : Aggregator) : Type 0 where
  pub same_pending : b.pending ≡ a.pending
  pub same_len : b.pending_len ≡ a.pending_len
  pub same_limit : b.pending_cap ≡ a.pending_cap

pub SameParked-IsParked : (a b : Aggregator) → SameParked a b → IsParked a → IsParked b
SameParked-IsParked a b h v = record {
  filed = rw h.same_pending v.filed;
  counted = h.same_len ∙ v.counted ∙ sym (ap waiting h.same_pending);
  capped = rw (h.same_len, h.same_limit) v.capped;
  cap_fits = rw h.same_limit v.cap_fits;
}

waiting-remove :
    (n k : ℕ) (m : List (ℕ × List WireSpan))
    → Above n m
    → waiting (remove k m) + length (waiters_of (lookup k m)) ≡ waiting m
unfolding remove lookup
waiting-remove n k [] s = omega arith
waiting-remove n k ((j, w) ∷ m) s =
    ground (arith, waiting-remove (suc j) k m s.1, lookup-below (suc j) k m s.1)

waiting-insert :
    (n k : ℕ) (v : List WireSpan) (m : List (ℕ × List WireSpan))
    → Above n m
    → waiting (insert k v m) + length (waiters_of (lookup k m)) ≡ waiting m + length v
unfolding insert lookup
waiting-insert n k v [] s = omega arith
waiting-insert n k v ((j, w) ∷ m) s =
    ground (arith, waiting-insert (suc j) k v m s.1, lookup-below (suc j) k m s.1)

-- The waiters of an id leave, and the counter with them.
pub take_waiters-IsParked :
    (id : ℕ) (a : Aggregator)
    → IsParked a
    → IsParked (take_waiters id a).1
      × ((take_waiters id a).1.pending_len + length (take_waiters id a).0 ≡ a.pending_len)
unfolding take_waiters
take_waiters-IsParked id a v =
    ground (arith, remove-Above 0 id a.pending v.filed, waiting-remove 0 id a.pending v.filed)

trim_pending_lem :
    (cap len n : ℕ) (m : List (ℕ × List WireSpan))
    → Above n m
    → len ≡ waiting m
    → len < u64_mod
    → Above n (trim_pending cap m len).0
      × ((trim_pending cap m len).1 ≡ waiting (trim_pending cap m len).0)
      × ((trim_pending cap m len).1 ≤ cap)
      × ((trim_pending cap m len).1 ≤ len)
unfolding trim_pending
trim_pending_lem cap len n [] s e h = (tt, e, omega arith, omega arith)
trim_pending_lem cap len n ((j, w) ∷ m) s e h =
    let (sorted, counted, capped, fewer) =
      trim_pending_lem cap (wrapping_sub u64_mod len (length w)) (suc j) m s.1 (omega arith)
        (omega arith) in
    ground
      (arith, Above-mono n (suc j) (trim_pending cap m (wrapping_sub u64_mod len (length w))).0)

-- One more span is parked, or the spans of the lowest ids are dropped to keep to the cap.
pub park_pending-IsParked :
    (p : ℕ) (span : WireSpan) (a : Aggregator)
    → IsParked a
    → IsParked (park_pending p span a)
      × ((park_pending p span a).pending_len ≤ a.pending_len + 1)
      × ((park_pending p span a).order ≡ a.order)
      × ((park_pending p span a).history_budget ≡ a.history_budget)
unfolding park_pending
park_pending-IsParked p span a v =
    let held = waiters_of (lookup p a.pending) in
    let (sorted, counted, capped, fewer) =
      trim_pending_lem a.pending_cap (a.pending_len + 1) 0 (insert p (held ++ span ∷ []) a.pending)
        (insert-Above 0 p (held ++ span ∷ []) a.pending (omega arith) v.filed)
        (omega (
          arith,
          v.counted,
          waiting-insert 0 p (held ++ span ∷ []) a.pending v.filed,
          length-append held (span ∷ []),
        ))
        (omega (arith, v.capped, v.cap_fits)) in
    (
      record { filed = sorted; counted = counted; capped = capped; cap_fits = v.cap_fits },
      fewer,
      refl,
      refl,
    )
