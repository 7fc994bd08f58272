-- ===== src/Model/Graph/State/Bounds.antt =====
-- The memory of the graph view of tracing-console/src/model/graph.rs: what its store holds, whatever
-- spans are recorded.
use tracing_console.Base.{
  ℕ, ◌-◌, ◌/◌, ◌≤◌, ◌≡◌, Bool-cases, Option-cases, inl, inr, List, [], ◌∷◌, some, ltb, ◌==◌, arith,
  length, All,
}
use tracing_console.Base.Assoc
use tracing_console.Base.Text.{Text}
use tracing_console.Host.Protocol.{WireSpan}
use tracing_console.Aggregate.State.{Aggregator}
use tracing_console.Aggregate.State.Keys.{splits_eq}
use tracing_console.Aggregate.State.Rebuild.{collect_splits_for, iter_with_stack, span_by_id}
use tracing_console.Model.Reals.{Reals}
use tracing_console.Model.Graph.Store.{
  SeriesKey, Series, GraphSeriesStore, bin_cap, default_series, first_bin, record_bin,
  series_or_default, origin_for, put_sample, record_sample, wipe, reset_window,
}
use tracing_console.Model.Graph.Store.Laws.{record_bin_lem}
use tracing_console.Model.Graph.State.{
  GraphState, span_value, record_span, rerecord, rehydrate, matching_ids,
}

abbrev pub IsSmall : SeriesKey × Series → Type 0
IsSmall e = length e.1.bins ≤ bin_cap

-- No series holds more than 600 bins.
abbrev pub IsStore : GraphSeriesStore → Type 0
IsStore store = All IsSmall store.series

insert-All :
    (key : SeriesKey) (s : Series) (m : List (SeriesKey × Series))
    → length s.bins ≤ bin_cap
    → All IsSmall m
    → All IsSmall (Assoc.insert splits_eq key s m)
unfolding Assoc.insert
insert-All key s [] small h = (small, tt)
insert-All key s ((k, v) ∷ m) small h = elim (Bool-cases (splits_eq.beq k key)) [
  | inl e ↦ rw e (small, h.1)
  | inr e ↦ rw e (h.0, insert-All key s m small h.1)
]

lookup-small :
    (key : SeriesKey) (m : List (SeriesKey × Series))
    → All IsSmall m
    → length (series_or_default (Assoc.lookup splits_eq key m)).bins ≤ bin_cap
unfolding Assoc.lookup default_series
lookup-small key [] h = omega arith
lookup-small key ((k, v) ∷ m) h = elim (Bool-cases (splits_eq.beq k key)) [
  | inl e ↦ rw e h.0
  | inr e ↦ rw e (lookup-small key m h.1)
]

record_bin-small :
    (bin_idx value : ℕ) (s after : Series)
    → length s.bins ≤ bin_cap
    → record_bin bin_idx value s ≡ some after
    → length after.bins ≤ bin_cap
record_bin-small bin_idx value s after small e =
    elim (Bool-cases (ltb bin_idx (first_bin s.bins bin_idx s.base_idx))) [
      | inl late ↦ absurd (ground (arith, (record_bin_lem bin_idx value s small).0))
      | inr in_time ↦
          let (t, found, r) = (record_bin_lem bin_idx value s small).1 (ground arith) in
          let same : after ≡ t = ground arith in rw same r.bounded
    ]

put_sample-IsStore :
    (key : SeriesKey) (bin_idx value origin : ℕ) (store after : GraphSeriesStore)
    → IsStore store
    → put_sample key bin_idx value origin store ≡ some after
    → IsStore after
unfolding put_sample
put_sample-IsStore key bin_idx value origin store after v e =
    let s = series_or_default (Assoc.lookup splits_eq key store.series) in
    elim (Option-cases
      (record_bin bin_idx value (series_or_default (Assoc.lookup splits_eq key store.series)))) [
        | inl failed ↦ absurd (ground arith)
        | inr (t, found) ↦
            let same : after.series ≡ Assoc.insert splits_eq key t store.series = ground arith in
            rw same (
              insert-All key t store.series
                (record_bin-small bin_idx value s t (lookup-small key store.series v) found) v)
      ]

record_sample-IsStore :
    (key : SeriesKey) (t_ns value : ℕ) (store after : GraphSeriesStore)
    → IsStore store
    → record_sample key t_ns value store ≡ some after
    → IsStore after
unfolding record_sample
record_sample-IsStore key t_ns value store after v e =
    elim (Bool-cases (ltb t_ns (origin_for t_ns store))) [
      | inl early ↦ let same : after.series ≡ store.series = ground arith in rw same v
      | inr in_time ↦ elim (Bool-cases (store.window_ns == 0)) [
        | inl no_window ↦ absurd (ground arith)
        | inr window ↦
            put_sample-IsStore key ((t_ns - origin_for t_ns store) / store.window_ns) value
              (origin_for t_ns store) store after v (ground arith)
      ]
    ]

module _ (r : Reals) (show_f64 : ℕ → Text) where
  pub record_span-IsStore :
      (agg : Aggregator) (span : WireSpan) (g after : GraphState r)
      → IsStore g.store
      → record_span r show_f64 agg span g ≡ some after
      → IsStore after.store
  unfolding record_span
  record_span-IsStore agg span g after v e = elim (Option-cases span.closed_at_ns) [
    | inl opened ↦ let same : after.store ≡ g.store = ground arith in rw same v
    | inr (closed, found) ↦
        let key = collect_splits_for show_f64 span.id g.split_keys agg in
        let value = span_value r show_f64 agg span closed g.metric in
        elim (Option-cases (
          record_sample (collect_splits_for show_f64 span.id g.split_keys agg) closed
            (span_value r show_f64 agg span closed g.metric) g.store)) [
              | inl failed ↦ absurd (ground arith)
              | inr (store, recorded) ↦
                  let same : after.store ≡ store = ground arith in
                  rw same (record_sample-IsStore key closed value g.store store v recorded)
            ]
  ]

  rerecord-IsStore :
      (agg : Aggregator) (ids : List ℕ) (g after : GraphState r)
      → IsStore g.store
      → rerecord r show_f64 agg ids g ≡ some after
      → IsStore after.store
  unfolding rerecord
  rerecord-IsStore agg [] g after v e = let same : after ≡ g = ground arith in rw same v
  rerecord-IsStore agg (id ∷ ids) g after v e = elim (Option-cases (span_by_id id agg)) [
    | inl gone ↦ rerecord-IsStore agg ids g after v (ground arith)
    | inr (span, found) ↦ elim (Option-cases (record_span r show_f64 agg span g)) [
      | inl failed ↦ absurd (ground arith)
      | inr (g', recorded) ↦
          rerecord-IsStore agg ids g' after (record_span-IsStore agg span g g' v recorded)
            (ground arith)
    ]
  ]

  -- When the recording of a span returns, it keeps that no series of the graph holds more than 600 bins;
  -- when a rebuild of the store from the ring returns, that holds whatever the store was.
  pub rehydrate-IsStore :
      (agg : Aggregator) (g after : GraphState r)
      → (rehydrate r show_f64 agg g ≡ some after → IsStore after.store)
        × ((span : WireSpan)
            → IsStore g.store
            → record_span r show_f64 agg span g ≡ some after
            → IsStore after.store)
  rehydrate-IsStore agg g after = (
    λ e.
        unfold rehydrate in
        rerecord-IsStore agg (matching_ids r show_f64 g.locked_stack (iter_with_stack agg))
          (record g { store = reset_window r g.window_secs g.store }) after
          (unfold reset_window wipe in tt) e,
    λ span v e. record_span-IsStore agg span g after v e,
  )
