-- ===== src/Model/Graph/Bin/Laws.antt =====
-- What a bin of tracing-console/src/model/graph.rs reports of the values that it was given.
use tracing_console.Base.{
  ℕ, suc, ◌+◌, ◌-◌, ◌*◌, ◌/◌, ◌%◌, ◌<◌, ◌≤◌, ◌≡◌, refl, ap, ◌∙◌, min, Bool, true, false, Bool-cases,
  inl, inr, List, [], ◌∷◌, ◌++◌, if◌then◌else◌, ltb, leb, ◌==◌, arith, length, All, All-append,
  All-mono, All-get_elem?, get_elem?_of_lt, length-append,
}
use native.Mathlib.Nat.{mul-suc, mul-le-mul_right, le-div_iff_mul-le, div-le_of_le-mul, mul_comm}
use tracing_console.Base.Words.{u64_mod}
use tracing_console.Aggregate.Bucket.Multiset.{least, greatest}
use tracing_console.Aggregate.Bucket.Stats.{sum}
use tracing_console.Model.Reals.{Reals}
use tracing_console.Model.Graph.{AggMode}
use tracing_console.Model.Graph.Bin.{
  Bin, new_bin, record_value, bin_sample_cap, u128_mod, insert_sorted, sorted, percentile_of,
  aggregate,
}

-- The bin that values have been recorded in, the last one first.
abbrev pub bin_of : List ℕ → Bin
bin_of [] = new_bin
bin_of (v ∷ vs) = record_value v (bin_of vs)

-- A value between the least and the greatest of a list.
abbrev pub IsWithin : List ℕ → ℕ → Type 0
IsWithin vs x = (least vs ≤ x) × (x ≤ greatest vs)

IsWithin-cons : (v w : ℕ) (vs : List ℕ) (x : ℕ) → IsWithin (w ∷ vs) x → IsWithin (v ∷ w ∷ vs) x
IsWithin-cons v w vs x h = (omega arith, omega arith)

record Holds (vs : List ℕ) (b : Bin) : Type 0 where
  counted : b.count ≡ length vs
  summed : b.sum_ns ≡ sum vs
  lowest : b.min_ns ≡ least vs
  highest : b.max_ns ≡ greatest vs
  sampled : All (IsWithin vs) b.samples
  some_sampled : 0 < length vs → 0 < length b.samples

sampled_more :
    (vs : List ℕ) (v : ℕ) (b : Bool) (samples : List ℕ)
    → IsWithin vs v
    → All (IsWithin vs) samples
    → All (IsWithin vs) (if b then samples ++ v ∷ [] else samples)
sampled_more vs v true samples p h = All-append (IsWithin vs) samples (v ∷ []) h (p, tt)
sampled_more vs v false samples p h = h

record_value-Holds :
    (v w : ℕ) (vs : List ℕ) (b : Bin)
    → length (v ∷ w ∷ vs) < u64_mod
    → sum (v ∷ w ∷ vs) < u128_mod
    → Holds (w ∷ vs) b
    → Holds (v ∷ w ∷ vs) (record_value v b)
unfolding record_value
record_value-Holds v w vs b few small h =
    let more : All (IsWithin (v ∷ w ∷ vs)) b.samples =
      All-mono (IsWithin (w ∷ vs)) (IsWithin (v ∷ w ∷ vs)) b.samples (IsWithin-cons v w vs)
        h.sampled in
    record {
      counted = ground (arith, h.counted);
      summed = ground (arith, h.summed);
      lowest = ground (arith, h.counted, h.lowest);
      highest = ground (arith, h.counted, h.highest);
      sampled =
          sampled_more (v ∷ w ∷ vs) v (ltb (length b.samples) bin_sample_cap) b.samples
            (omega arith, omega arith) more;
      some_sampled = λ p. ground (arith, h.some_sampled, length-append b.samples (v ∷ []));
    }

bin_of-Holds :
    (v : ℕ) (vs : List ℕ)
    → length (v ∷ vs) < u64_mod
    → sum (v ∷ vs) < u128_mod
    → Holds (v ∷ vs) (bin_of (v ∷ vs))
bin_of-Holds v [] few small =
    unfold record_value new_bin in
    record {
      counted = refl;
      summed = ground arith;
      lowest = refl;
      highest = omega arith;
      sampled = ((omega arith, omega arith), tt);
      some_sampled = λ p. omega arith;
    }
bin_of-Holds v (w ∷ vs) few small =
    record_value-Holds v w vs (bin_of (w ∷ vs)) few small
      (bin_of-Holds w vs (omega arith) (omega arith))

insert_sorted-length : (v : ℕ) (vs : List ℕ) → length (insert_sorted v vs) ≡ suc (length vs)
unfolding insert_sorted
insert_sorted-length v [] = refl
insert_sorted-length v (w ∷ vs) = ground (arith, insert_sorted-length v vs)

sorted-length : (vs : List ℕ) → length (sorted vs) ≡ length vs
unfolding sorted
sorted-length [] = refl
sorted-length (v ∷ vs) = insert_sorted-length v (sorted vs) ∙ ap suc (sorted-length vs)

insert_sorted-All :
    (P : ℕ → Type 0) (v : ℕ) (vs : List ℕ) → P v → All P vs → All P (insert_sorted v vs)
unfolding insert_sorted
insert_sorted-All P v [] p h = (p, tt)
insert_sorted-All P v (w ∷ vs) p h = elim (Bool-cases (leb v w)) [
  | inl e ↦ rw e (p, (h.0, h.1))
  | inr e ↦ rw e (h.0, insert_sorted-All P v vs p h.1)
]

sorted-All : (P : ℕ → Type 0) (vs : List ℕ) → All P vs → All P (sorted vs)
unfolding sorted
sorted-All P [] h = h
sorted-All P (v ∷ vs) h = insert_sorted-All P v (sorted vs) h.0 (sorted-All P vs h.1)

mean_low : (a v m n s : ℕ) → a ≤ v → a ≤ m → m * n ≤ s → a * suc n ≤ v + s
mean_low a v m n s p q h = omega (arith, mul-suc a n, mul-le-mul_right n q)

not_zero : (n : ℕ) → (suc n == 0) ≡ false
not_zero n = ground arith

least-le-greatest : (v : ℕ) (vs : List ℕ) → least (v ∷ vs) ≤ greatest (v ∷ vs)
least-le-greatest v [] = omega arith
least-le-greatest v (w ∷ vs) = omega (arith, least-le-greatest w vs)

least_times : (v : ℕ) (vs : List ℕ) → least (v ∷ vs) * length (v ∷ vs) ≤ sum (v ∷ vs)
least_times v [] = omega arith
least_times v (w ∷ vs) =
    mean_low (least (v ∷ w ∷ vs)) v (least (w ∷ vs)) (length (w ∷ vs)) (sum (w ∷ vs)) (omega arith)
      (omega arith) (least_times w vs)

times_greatest : (v : ℕ) (vs : List ℕ) → sum (v ∷ vs) ≤ greatest (v ∷ vs) * length (v ∷ vs)
times_greatest v [] = omega arith
times_greatest v (w ∷ vs) = grind (arith, times_greatest w vs)

module _ (r : Reals) where
  -- The average lies between the extremes.
  average-IsWithin :
      (v : ℕ) (vs : List ℕ)
      → greatest (v ∷ vs) < u64_mod
      → IsWithin (v ∷ vs) (sum (v ∷ vs) / length (v ∷ vs) % u64_mod)
  average-IsWithin v vs small =
      let low : least (v ∷ vs) ≤ sum (v ∷ vs) / length (v ∷ vs) =
        (le-div_iff_mul-le {k = length (v ∷ vs)} {x = least (v ∷ vs)} {y = sum (v ∷ vs)}
            (omega arith)).1
          (least_times v vs) in
      let high : sum (v ∷ vs) / length (v ∷ vs) ≤ greatest (v ∷ vs) =
        div-le_of_le-mul (length (v ∷ vs))
          (omega (arith, times_greatest v vs, mul_comm (length (v ∷ vs)) (greatest (v ∷ vs)))) in
      (omega (arith, low, high), omega (arith, low, high))

  percentile_of-All :
      (P : ℕ → Type 0) (p : r.F64) (samples : List ℕ)
      → 0 < length samples
      → All P samples
      → P (percentile_of r p samples)
  unfolding percentile_of
  percentile_of-All P p samples some_there h =
      let n = length (sorted samples) in
      let idx = r.round_u64 (r.mul (r.div p r.hundred) (r.of_u64 (length (sorted samples) - 1))) in
      let (x, e) =
        get_elem?_of_lt (sorted samples) (min idx (n - 1)) (omega (arith, sorted-length samples)) in
      rw e (All-get_elem? P (sorted samples) (min idx (n - 1)) x (sorted-All P samples h) e)

  percentile_or_zero :
      (p : r.F64) (vs samples : List ℕ)
      → 0 < length samples
      → All (IsWithin vs) samples
      → IsWithin vs (elim samples [ [] ↦ 0 | s ∷ rest ↦ percentile_of r p (s ∷ rest) ])
  percentile_or_zero p vs [] some_there h = absurd (omega arith)
  percentile_or_zero p vs (s ∷ rest) some_there h =
      percentile_of-All (IsWithin vs) p (s ∷ rest) some_there h

  aggregate_held :
      (mode : AggMode r.F64) (v : ℕ) (vs : List ℕ) (b : Bin)
      → greatest (v ∷ vs) < u64_mod
      → Holds (v ∷ vs) b
      → IsWithin (v ∷ vs) (aggregate r mode b)
  unfolding aggregate
  aggregate_held AggMode.min v vs b small h =
      rw (aggregate, h.counted, not_zero (length vs), h.lowest)
        (omega arith, least-le-greatest v vs)
  aggregate_held AggMode.max v vs b small h =
      rw (aggregate, h.counted, not_zero (length vs), h.highest)
        (least-le-greatest v vs, omega arith)
  aggregate_held AggMode.avg v vs b small h =
      rw (aggregate, h.counted, not_zero (length vs), h.summed) (average-IsWithin v vs small)
  aggregate_held (AggMode.percentile p) v vs b small h =
      rw (aggregate, h.counted, not_zero (length vs))
        (percentile_or_zero p (v ∷ vs) b.samples (h.some_sampled (omega arith)) h.sampled)

  -- A bin that fewer than 2^64 values have been recorded in, at least one, of a sum below 2^128 and
  -- each below 2^64, reports in every mode of aggregation, percentiles of any number included, a value
  -- that is not below the least nor above the greatest of those values.
  pub aggregate_within :
      (mode : AggMode r.F64) (v : ℕ) (vs : List ℕ)
      → length (v ∷ vs) < u64_mod
      → sum (v ∷ vs) < u128_mod
      → greatest (v ∷ vs) < u64_mod
      → (least (v ∷ vs) ≤ aggregate r mode (bin_of (v ∷ vs)))
        × (aggregate r mode (bin_of (v ∷ vs)) ≤ greatest (v ∷ vs))
  aggregate_within mode v vs few small each =
      aggregate_held mode v vs (bin_of (v ∷ vs)) each (bin_of-Holds v vs few small)
