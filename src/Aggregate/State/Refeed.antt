-- ===== src/Aggregate/State/Refeed.antt =====
-- The rebuilding of the buckets of tracing-console/src/aggregate/state.rs ends and keeps the invariant.
use tracing_console.Base.{
  ℕ, suc, ◌≡◌, refl, sym, ◌∙◌, inl, inr, Bool-cases, Option-cases, List, [], ◌∷◌, none, some, arith,
}
use tracing_console.Base.Text.{Text}
use tracing_console.Base.OrdMap.{lookup, remove}
use tracing_console.Aggregate.State.{Entry, Aggregator, absorb_resolved}
use tracing_console.Aggregate.State.Rebuild.{refeed, rebuild_buckets, set_split_keys}
use tracing_console.Aggregate.State.Keys.{stack_eq}
use tracing_console.Aggregate.State.Absorb.{
  IsAggregator, Absorbs, Absorbed, absorb_resolved-Absorbs,
}
use tracing_console.Aggregate.State.Limits.{SameLimits, absorb_resolved-SameLimits}

module _ (show_f64 : ℕ → Text) where
  refed :
      (entry : Entry) (order : List ℕ) (by_id : List (ℕ × Entry)) (a : Aggregator) (sink : List ℕ)
      (id : ℕ)
      → lookup id by_id ≡ some entry
      → (b : Aggregator) (out : List ℕ)
      → absorb_resolved show_f64 (suc a.pending_len) entry.span a sink ≡ some (b, out)
      → refeed show_f64 (id ∷ order) by_id a sink ≡ refeed show_f64 order (remove id by_id) b out
  unfolding refeed
  refed entry order by_id a sink id found b out made = ground (arith, found, made)

  missed :
      (order : List ℕ) (by_id : List (ℕ × Entry)) (a : Aggregator) (sink : List ℕ) (id : ℕ)
      → lookup id by_id ≡ none
      → refeed show_f64 (id ∷ order) by_id a sink ≡ refeed show_f64 order by_id a sink
  unfolding refeed
  missed order by_id a sink id gone = ground (arith, gone)

  refeed_total :
      (order : List ℕ) (by_id : List (ℕ × Entry)) (a : Aggregator) (sink : List ℕ)
      → IsAggregator a
      → (b : Aggregator) × (out : List ℕ) × (refeed show_f64 order by_id a sink ≡ some (b, out))
        × IsAggregator b
        × SameLimits a b
  unfolding Absorbs Absorbed
  refeed_total [] by_id a sink v = (a, sink, unfold refeed in refl, v, (refl, refl, refl))
  refeed_total (id ∷ order) by_id a sink v = elim (Option-cases (lookup id by_id)) [
    | inl gone ↦
        let (b, out, e, ok, same) = refeed_total order by_id a sink v in
        (b, out, missed order by_id a sink id gone ∙ e, ok, same)
    | inr (entry, found) ↦
        let (b, out, e, ok, fewer) =
          absorb_resolved-Absorbs show_f64 (suc a.pending_len) entry.span a sink v (omega arith) in
        let first =
          absorb_resolved-SameLimits show_f64 (suc a.pending_len) entry.span a sink b out e in
        let (c, rest, e', ok', same) = refeed_total order (remove id by_id) b out ok in
        (
          c,
          rest,
          refed entry order by_id a sink id found b out e ∙ e',
          ok',
          (same.0 ∙ first.0, same.1 ∙ first.1, same.2 ∙ first.2),
        )
  ]

  abbrev cleared : Aggregator → Aggregator
  cleared a = record a {
    buckets = [];
    child_sum = [];
    order = [];
    by_id = [];
    pending = [];
    pending_len = 0;
  }

  cleared-IsAggregator : (a : Aggregator) → IsAggregator a → IsAggregator (cleared a)
  cleared-IsAggregator a v = record {
    parked_ok = record {
      filed = tt;
      counted = refl;
      capped = omega arith;
      cap_fits = v.parked_ok.cap_fits;
    };
    positive = v.positive;
    bounded = omega arith;
  }

  rebuild_buckets_total :
      (a : Aggregator)
      → IsAggregator a
      → (b : Aggregator) × (rebuild_buckets show_f64 a ≡ some b)
        × IsAggregator b
        × SameLimits a b
        × (b.pending ≡ a.pending)
  unfolding rebuild_buckets
  rebuild_buckets_total a v =
      let (fed, out, e, ok, same) =
        refeed_total a.order a.by_id (cleared a) [] (cleared-IsAggregator a v) in
      (
        record fed { pending = a.pending; pending_len = a.pending_len },
        rw e refl,
        record {
          parked_ok = record {
            filed = v.parked_ok.filed;
            counted = v.parked_ok.counted;
            capped = rw (same.0) v.parked_ok.capped;
            cap_fits = rw (same.0) v.parked_ok.cap_fits;
          };
          positive = ok.positive;
          bounded = ok.bounded;
        },
        same,
        refl,
      )

  -- On an aggregator that keeps the invariant, setting the split keys ends with a result for any keys: the
  -- rebuilding of the buckets does not run out of room or fuel. The result has the new keys, keeps the
  -- invariant, the budget and the spans that wait for a parent.
  pub set_split_keys_total :
      (keys : List Text) (a : Aggregator)
      → IsAggregator a
      → (b : Aggregator) × (set_split_keys show_f64 keys a ≡ some b)
        × IsAggregator b
        × (b.split_keys ≡ keys)
        × (b.history_budget ≡ a.history_budget)
        × (b.pending ≡ a.pending)
  unfolding set_split_keys
  set_split_keys_total keys a v = elim (Bool-cases (stack_eq.beq keys a.split_keys)) [
    | inl same ↦ (a, rw same refl, v, sym ((stack_eq.beq_iff keys a.split_keys).0 same), refl, refl)
    | inr new_keys ↦
        let asked = record a { split_keys = keys } in
        let (b, e, ok, same, kept) = rebuild_buckets_total asked (record {
          parked_ok = record {
            filed = v.parked_ok.filed;
            counted = v.parked_ok.counted;
            capped = v.parked_ok.capped;
            cap_fits = v.parked_ok.cap_fits;
          };
          positive = v.positive;
          bounded = v.bounded;
        }) in
        (b, rw new_keys e, ok, same.2, same.1, kept)
  ]
