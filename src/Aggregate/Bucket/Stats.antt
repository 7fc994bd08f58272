-- ===== src/Aggregate/Bucket/Stats.antt =====
-- `BucketState` and `StackStats` of tracing-console/src/aggregate: a bucket stands for the bag of the
-- spans that it counts.
use tracing_console.Base.{ℕ, suc, ◌+◌, ◌<◌, ◌≡◌, refl, ap, List, [], ◌∷◌, ◌++◌, length, arith, ◌∙◌}
use tracing_console.Aggregate.Bucket.{
  BucketState, StackStats, default_bucket, add, remove_contribution, to_stack_stats, u32_mod,
  u64_mod, u128_mod, ms_inc, ms_dec,
}
use tracing_console.Aggregate.Bucket.Multiset.{
  RoomFor, lookup-ms_of, ms_dec-ms_inc, ms_inc_comm, ms_of, least, greatest, ms_min_max-ms_of,
  ms_of-IsSorted,
}

-- The bucket that a list of spans, each a total and a self time, has been added to.
abbrev pub bucket_of : List (ℕ × ℕ) → BucketState
bucket_of [] = default_bucket
bucket_of ((total, self_time) ∷ spans) = add total self_time (bucket_of spans)

abbrev pub totals : List (ℕ × ℕ) → List ℕ
totals [] = []
totals ((total, self_time) ∷ spans) = total ∷ totals spans

abbrev pub selves : List (ℕ × ℕ) → List ℕ
selves [] = []
selves ((total, self_time) ∷ spans) = self_time ∷ selves spans

abbrev pub sum : List ℕ → ℕ
sum [] = 0
sum (v ∷ vs) = v + sum vs

-- What the statistics of a list of spans are to be.
abbrev pub stats_of : List (ℕ × ℕ) → StackStats
stats_of spans = record {
  count = length spans;
  total_min_ns = least (totals spans);
  total_max_ns = greatest (totals spans);
  total_sum_ns = sum (totals spans);
  self_min_ns = least (selves spans);
  self_max_ns = greatest (selves spans);
  self_sum_ns = sum (selves spans);
}

-- The counters of a bucket hold the list's.
record Counts (spans : List (ℕ × ℕ)) (s : BucketState) : Type 0 where
  counted : s.count ≡ length spans
  total_summed : s.total_sum_ns ≡ sum (totals spans)
  self_summed : s.self_sum_ns ≡ sum (selves spans)
  total_values : s.total_ns_multiset ≡ ms_of (totals spans)
  self_values : s.self_ns_multiset ≡ ms_of (selves spans)

bucket_of-Counts :
    (spans : List (ℕ × ℕ))
    → length spans < u64_mod
    → sum (totals spans) < u128_mod
    → sum (selves spans) < u128_mod
    → Counts spans (bucket_of spans)
unfolding default_bucket add
bucket_of-Counts [] few small small' = record {
  counted = refl;
  total_summed = refl;
  self_summed = refl;
  total_values = refl;
  self_values = refl;
}
bucket_of-Counts ((total, self_time) ∷ spans) few small small' =
    let h = bucket_of-Counts spans (omega arith) (omega arith) (omega arith) in
    record {
      counted = omega (arith, h.counted);
      total_summed = omega (arith, h.total_summed);
      self_summed = omega (arith, h.self_summed);
      total_values = ap (ms_inc total) h.total_values;
      self_values = ap (ms_inc self_time) h.self_values;
    }

-- A bucket's statistics are those of the spans added to it: how many, and the sum, the least and the
-- greatest of their times, provided that the counters do not overflow.
pub to_stack_stats_lem :
    (spans : List (ℕ × ℕ))
    → length spans < u64_mod
    → sum (totals spans) < u128_mod
    → sum (selves spans) < u128_mod
    → to_stack_stats (bucket_of spans) ≡ stats_of spans
unfolding to_stack_stats
to_stack_stats_lem spans few small small' =
    let h = bucket_of-Counts spans few small small' in
    rw
      (
        h.counted,
        h.total_summed,
        h.self_summed,
        h.total_values,
        h.self_values,
        ms_min_max-ms_of (totals spans),
        ms_min_max-ms_of (selves spans),
      )
      refl

-- The order of two spans does not matter to their bucket.
add_comm : (t f u g : ℕ) (s : BucketState) → add t f (add u g s) ≡ add u g (add t f s)
unfolding add
add_comm t f u g s =
    ground (arith, ms_inc_comm t u s.total_ns_multiset, ms_inc_comm f g s.self_ns_multiset)

bucket_of-move :
    (t f : ℕ) (before after : List (ℕ × ℕ))
    → bucket_of (before ++ (t, f) ∷ after) ≡ add t f (bucket_of (before ++ after))
bucket_of-move t f [] after = refl
bucket_of-move t f ((u, g) ∷ before) after =
    ap (add u g) (bucket_of-move t f before after) ∙ add_comm u g t f (bucket_of (before ++ after))

remove_contribution-add :
    (t f : ℕ) (s : BucketState)
    → t < u64_mod
    → f < u64_mod
    → s.count < u64_mod
    → s.total_sum_ns < u128_mod
    → s.self_sum_ns < u128_mod
    → ms_dec t (ms_inc t s.total_ns_multiset) ≡ s.total_ns_multiset
    → ms_dec f (ms_inc f s.self_ns_multiset) ≡ s.self_ns_multiset
    → remove_contribution t f (add t f s) ≡ s
unfolding remove_contribution add
remove_contribution-add t f s ht hf hc hs hs' et ef = ground arith

length-totals : (spans : List (ℕ × ℕ)) → length (totals spans) ≡ length spans
length-totals [] = refl
length-totals ((t, f) ∷ spans) = ap suc (length-totals spans)

length-selves : (spans : List (ℕ × ℕ)) → length (selves spans) ≡ length spans
length-selves [] = refl
length-selves ((t, f) ∷ spans) = ap suc (length-selves spans)

RoomFor-of : (key : ℕ) (vs : List ℕ) → length vs + 1 < u32_mod → RoomFor key (ms_of vs)
RoomFor-of key vs few c here =
    let (positive, few') = lookup-ms_of key c vs (omega arith) here in (positive, omega arith)

-- A span that leaves a bucket undoes its own arrival, wherever it stands among the others: the bucket
-- is the one of the other spans, provided that the counters do not overflow.
pub remove_contribution_lem :
    (t f : ℕ) (before after : List (ℕ × ℕ))
    → t < u64_mod
    → f < u64_mod
    → length (before ++ after) + 1 < u32_mod
    → sum (totals (before ++ after)) < u128_mod
    → sum (selves (before ++ after)) < u128_mod
    → remove_contribution t f (bucket_of (before ++ (t, f) ∷ after)) ≡ bucket_of (before ++ after)
remove_contribution_lem t f before after ht hf few small small' =
    let others = before ++ after in
    let h = bucket_of-Counts others (omega arith) small small' in
    ap (remove_contribution t f) (bucket_of-move t f before after)
    ∙ remove_contribution-add t f (bucket_of others) ht hf (omega (arith, h.counted))
        (omega (arith, h.total_summed)) (omega (arith, h.self_summed))
        (rw h.total_values (
          ms_dec-ms_inc t (ms_of (totals others)) (ms_of-IsSorted (totals others))
            (RoomFor-of t (totals others) (omega (arith, length-totals others)))))
        (rw h.self_values (
          ms_dec-ms_inc f (ms_of (selves others)) (ms_of-IsSorted (selves others))
            (RoomFor-of f (selves others) (omega (arith, length-selves others)))))
