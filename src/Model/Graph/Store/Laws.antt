-- ===== src/Model/Graph/Store/Laws.antt =====
-- Recording into one series of the store in tracing-console/src/model/graph.rs.
use tracing_console.Base.{
  ℕ, zero, suc, ◌+◌, ◌-◌, ◌<◌, ◌≤◌, ◌≡◌, ◌≢◌, refl, ap, ◌∙◌, sym, false, List, [], ◌∷◌, ◌++◌,
  Option, none, some, if◌then◌else◌, ltb, lt→ltb, arith, length, get_elem?, set, replicate,
  length-append, length-set, length-replicate, get_elem?-set_self, get_elem?-set_ne,
}
use tracing_console.Model.Graph.Bin.{Bin, record_value}
use tracing_console.Model.Graph.Store.{
  Series, bin_cap, pop_fronts, bin_or_new, slot_or_none, first_bin, record_bin,
}

-- The bin of an absolute index, if the series holds one.
abbrev pub bin_at : Series → ℕ → Option Bin
bin_at s j = if ltb j s.base_idx then none else slot_or_none (get_elem? s.bins (j - s.base_idx))

pop_fronts-length :
    (n : ℕ) (bins : List (Option Bin)) (base : ℕ)
    → n ≤ length bins
    → length (pop_fronts n (record { bins = bins; base_idx = base })).bins + n ≡ length bins
unfolding pop_fronts
pop_fronts-length zero bins base h = omega arith
pop_fronts-length (suc n) [] base h = absurd (omega arith)
pop_fronts-length (suc n) (b ∷ bins) base h =
    omega (arith, pop_fronts-length n bins (base + 1) (omega arith))

pop_fronts-base :
    (n : ℕ) (bins : List (Option Bin)) (base : ℕ)
    → n ≤ length bins
    → (pop_fronts n (record { bins = bins; base_idx = base })).base_idx ≡ base + n
unfolding pop_fronts
pop_fronts-base zero bins base h = omega arith
pop_fronts-base (suc n) [] base h = absurd (omega arith)
pop_fronts-base (suc n) (b ∷ bins) base h =
    omega (arith, pop_fronts-base n bins (base + 1) (omega arith))

get_elem?-pop_fronts :
    (n i : ℕ) (bins : List (Option Bin)) (base : ℕ)
    → n ≤ length bins
    → get_elem? (pop_fronts n (record { bins = bins; base_idx = base })).bins i
      ≡ get_elem? bins (n + i)
unfolding pop_fronts
get_elem?-pop_fronts zero i bins base h = ap (get_elem? bins) (omega arith)
get_elem?-pop_fronts (suc n) i [] base h = absurd (omega arith)
get_elem?-pop_fronts (suc n) i (b ∷ bins) base h =
    let step : suc (n + i) ≡ suc n + i = omega arith in
    get_elem?-pop_fronts n i bins (base + 1) (omega arith) ∙ ap (get_elem? (b ∷ bins)) step

slot-replicate : (k i : ℕ) → slot_or_none (get_elem? (replicate {A = Option Bin} k none) i) ≡ none
slot-replicate zero i = refl
slot-replicate (suc k) zero = refl
slot-replicate (suc k) (suc i) = slot-replicate k i

slot-append_replicate :
    (bins : List (Option Bin)) (k i : ℕ)
    → slot_or_none (get_elem? (bins ++ replicate k none) i) ≡ slot_or_none (get_elem? bins i)
slot-append_replicate [] k i = slot-replicate k i
slot-append_replicate (b ∷ bins) k zero = refl
slot-append_replicate (b ∷ bins) k (suc i) = slot-append_replicate bins k i

-- What the loops leave of a series before the value is recorded.
abbrev filled_to : ℕ → ℕ → List (Option Bin) → List (Option Bin)
filled_to bin_idx base bins = bins ++ replicate (bin_idx + 1 - base - length bins) none

abbrev kept_of : ℕ → ℕ → List (Option Bin) → Series
kept_of bin_idx base bins =
    pop_fronts (length (filled_to bin_idx base bins) - bin_cap)
      (record { bins = filled_to bin_idx base bins; base_idx = base })

length-filled_to :
    (bin_idx base : ℕ) (bins : List (Option Bin))
    → length (filled_to bin_idx base bins) ≡ length bins + (bin_idx + 1 - base - length bins)
length-filled_to bin_idx base bins =
    length-append bins (replicate (bin_idx + 1 - base - length bins) none)
    ∙ ap (λ n. length bins + n) (length-replicate (bin_idx + 1 - base - length bins) none)

-- The bins that were filled and kept: where they start, how many they are, and which they are.
record Kept (bin_idx base : ℕ) (bins : List (Option Bin)) (s : Series) : Type 0 where
  bounded : length s.bins ≤ bin_cap
  from_base : base ≤ s.base_idx
  reaches : s.base_idx ≤ bin_idx
  holds : bin_idx - s.base_idx < length s.bins
  popped_full : base < s.base_idx → length s.bins ≡ bin_cap
  same :
      (i : ℕ)
      → slot_or_none (get_elem? s.bins i) ≡ slot_or_none (get_elem? bins (s.base_idx - base + i))

kept_of-Kept :
    (bin_idx base : ℕ) (bins : List (Option Bin))
    → base ≤ bin_idx
    → length bins ≤ bin_cap
    → Kept bin_idx base bins (kept_of bin_idx base bins)
kept_of-Kept bin_idx base bins h small =
    let all = filled_to bin_idx base bins in
    let total = length-filled_to bin_idx base bins in
    let n = length (filled_to bin_idx base bins) - bin_cap in
    let count =
      pop_fronts-length (length (filled_to bin_idx base bins) - bin_cap)
        (filled_to bin_idx base bins) base (omega arith) in
    let start =
      pop_fronts-base (length (filled_to bin_idx base bins) - bin_cap) (filled_to bin_idx base bins)
        base (omega arith) in
    record {
      bounded = omega (arith, count);
      from_base = omega (arith, start);
      reaches = omega (arith, start, total);
      holds = omega (arith, start, total, count);
      popped_full = λ lt. omega (arith, start, count);
      same = λ i.
          ap slot_or_none (
            get_elem?-pop_fronts (length (filled_to bin_idx base bins) - bin_cap) i
              (filled_to bin_idx base bins) base (omega arith)
            ∙ ap (get_elem? (filled_to bin_idx base bins)) (omega (arith, start)))
          ∙ slot-append_replicate bins (bin_idx + 1 - base - length bins)
              ((kept_of bin_idx base bins).base_idx - base + i);
    }

bin_at-first_bin :
    (bins : List (Option Bin)) (base x j : ℕ)
    → first_bin bins x base ≤ j
    → bin_at (record { bins = bins; base_idx = base }) j
      ≡ slot_or_none (get_elem? bins (j - first_bin bins x base))
bin_at-first_bin [] base x j h = ground arith
bin_at-first_bin (b ∷ bins) base x j h = ground arith

bin_at_from :
    (s : Series) (j : ℕ)
    → s.base_idx ≤ j
    → bin_at s j ≡ slot_or_none (get_elem? s.bins (j - s.base_idx))
bin_at_from s j h = ground arith

bin_at-Kept :
    (bin_idx : ℕ) (s k : Series) (j : ℕ)
    → Kept bin_idx (first_bin s.bins bin_idx s.base_idx) s.bins k
    → k.base_idx ≤ j
    → slot_or_none (get_elem? k.bins (j - k.base_idx)) ≡ bin_at s j
bin_at-Kept bin_idx s k j v h =
    v.same (j - k.base_idx)
    ∙ ap (λ i. slot_or_none (get_elem? s.bins i)) (omega (arith, v.from_base))
    ∙ sym (bin_at-first_bin s.bins s.base_idx bin_idx j (omega (arith, v.from_base)))

-- What a series is after a value has been recorded in the bin of an index.
pub record Recorded (bin_idx value : ℕ) (before after : Series) : Type 0 where
  pub bounded : length after.bins ≤ bin_cap
  pub stored : bin_at after bin_idx ≡ some (record_value value (bin_or_new (bin_at before bin_idx)))
  pub others : (j : ℕ) → j ≢ bin_idx → after.base_idx ≤ j → bin_at after j ≡ bin_at before j
  pub dropped_full :
      first_bin before.bins bin_idx before.base_idx < after.base_idx → length after.bins ≡ bin_cap

stored_series : ℕ → ℕ → Series → Series
stored_series bin_idx value k = record k {
  bins = set k.bins (bin_idx - k.base_idx) (
      some
        (record_value value (bin_or_new (slot_or_none (get_elem? k.bins (bin_idx - k.base_idx))))));
}

stored_series-Recorded :
    (bin_idx value : ℕ) (s k : Series)
    → Kept bin_idx (first_bin s.bins bin_idx s.base_idx) s.bins k
    → Recorded bin_idx value s (stored_series bin_idx value k)
unfolding stored_series
stored_series-Recorded bin_idx value s k v =
    let new : Option Bin =
      some (
        record_value value (bin_or_new (slot_or_none (get_elem? k.bins (bin_idx - k.base_idx))))) in
    record {
      bounded = omega (arith, length-set k.bins (bin_idx - k.base_idx) new, v.bounded);
      stored =
          bin_at_from (stored_series bin_idx value k) bin_idx v.reaches
          ∙ ap slot_or_none (get_elem?-set_self k.bins (bin_idx - k.base_idx) new v.holds)
          ∙ ap (λ o. some (record_value value (bin_or_new o)))
              (bin_at-Kept bin_idx s k bin_idx v v.reaches);
      others = λ j ne h.
          bin_at_from (stored_series bin_idx value k) j h
          ∙ ap slot_or_none (
              get_elem?-set_ne k.bins (bin_idx - k.base_idx) (j - k.base_idx) new
                (λ e. ne (omega (arith, v.reaches))))
          ∙ bin_at-Kept bin_idx s k j v h;
      dropped_full = λ lt. length-set k.bins (bin_idx - k.base_idx) new ∙ v.popped_full lt;
    }

record_bin_kept :
    (bin_idx value : ℕ) (s : Series)
    → first_bin s.bins bin_idx s.base_idx ≤ bin_idx
    → let k = kept_of bin_idx (first_bin s.bins bin_idx s.base_idx) s.bins in
      bin_idx - k.base_idx < length k.bins
      → record_bin bin_idx value s ≡ some (stored_series bin_idx value k)
unfolding record_bin stored_series
record_bin_kept bin_idx value s h fits =
    let k = kept_of bin_idx (first_bin s.bins bin_idx s.base_idx) s.bins in
    let in_order : ltb bin_idx (first_bin s.bins bin_idx s.base_idx) ≡ false = ground arith in
    rw (in_order, lt→ltb (bin_idx - k.base_idx) (length k.bins) fits) refl

-- In a series of at most 600 bins, recording a value fails exactly when its bin lies before the first
-- one. Otherwise the value is recorded in its own bin, new or old; each other bin that is kept holds
-- what it held; at most 600 bins are kept; and bins are dropped at the front only when 600 are left.
pub record_bin_lem :
    (bin_idx value : ℕ) (s : Series)
    → length s.bins ≤ bin_cap
    → (bin_idx < first_bin s.bins bin_idx s.base_idx → record_bin bin_idx value s ≡ none)
      × (first_bin s.bins bin_idx s.base_idx ≤ bin_idx
          → (after : Series) × (record_bin bin_idx value s ≡ some after)
            × Recorded bin_idx value s after)
record_bin_lem bin_idx value s small = (
  λ late. unfold record_bin in rw (lt→ltb bin_idx (first_bin s.bins bin_idx s.base_idx) late) refl,
  λ h.
      let k = kept_of bin_idx (first_bin s.bins bin_idx s.base_idx) s.bins in
      let v = kept_of-Kept bin_idx (first_bin s.bins bin_idx s.base_idx) s.bins h small in
      (
        stored_series bin_idx value k,
        record_bin_kept bin_idx value s h v.holds,
        stored_series-Recorded bin_idx value s k v,
      ),
)
