-- ===== src/Model/Reduce/Explore.antt =====
-- The arms of `Model::apply` in tracing-console/src/model/core.rs for the explorer, as functions of its
-- state, and of the aggregator where they read it.
use tracing_console.Base.{
  ℕ, ◌+◌, ◌-◌, min, ◌&&◌, ◌||◌, not, List, [], ◌∷◌, ◌++◌, Option, none, some, if◌then◌else◌, ltb,
  leb, ◌==◌, length, get_elem?, keep,
}
use tracing_console.Base.Text.{Text}
use tracing_console.Host.Level.{WireLevelFilter}
use tracing_console.Aggregate.State.{Aggregator}
use tracing_console.Model.Explore.{
  ExploreState, TraceDetailState, matching_spans, find_root_id, cycle_sort_left, cycle_sort_right,
}
use tracing_console.Model.Explore.Rows.{distinguishing_fields}

-- The characters are ASCII: the controls are below 32, and 127.
unfoldable pub push_search_char : ℕ → Text → Text
push_search_char c buf = if ltb c 32 || (c == 127) then buf else buf ++ c ∷ []

-- The level that leaving the explorer asks for.
unfoldable pub restored_level : ExploreState → WireLevelFilter
restored_level es = elim es.restore_level [ none ↦ WireLevelFilter.trace | some level ↦ level ]

unfoldable pub search_commit : ExploreState → ExploreState
search_commit es = elim es.search_input [
  | none ↦ es
  | some buf ↦ record es { search_input = none; query = buf; selected = 0 }
]

-- The sets of ids, in order.
unfoldable pub insert_id : ℕ → List ℕ → List ℕ
insert_id id [] = id ∷ []
insert_id id (k ∷ ks) =
    let rest = insert_id id ks in
    if id == k then k ∷ ks else if leb id k then id ∷ k ∷ ks else k ∷ rest

unfoldable pub remove_id : ℕ → List ℕ → List ℕ
remove_id id ids = keep (λ k. not (k == id)) ids

module _ (show_f64 : ℕ → Text) where
  unfoldable pub explore_select_down : Aggregator → ExploreState → ExploreState
  unfolding matching_spans
  explore_select_down agg es =
      let row_count = length (matching_spans show_f64 agg es) in
      if ltb 0 row_count && ltb (es.selected + 1) row_count
      then record es { selected = es.selected + 1 }
      else es

  unfoldable pub explore_sort_left : Aggregator → ExploreState → ExploreState
  unfolding cycle_sort_left distinguishing_fields matching_spans
  explore_sort_left agg es =
      cycle_sort_left (distinguishing_fields show_f64 (matching_spans show_f64 agg es)) es

  unfoldable pub explore_sort_right : Aggregator → ExploreState → ExploreState
  unfolding cycle_sort_right distinguishing_fields matching_spans
  explore_sort_right agg es =
      cycle_sort_right (distinguishing_fields show_f64 (matching_spans show_f64 agg es)) es

  abbrev opened : ExploreState → Option ℕ → Option TraceDetailState
  opened es none = none
  opened es (some root_id) =
      some (record { root_id = root_id; selected_idx = 0; collapsed = []; explore = es })

  -- The trace of the selected span, if there are spans and its root is found.
  unfoldable pub open_trace : Aggregator → ExploreState → Option TraceDetailState
  unfolding matching_spans find_root_id
  open_trace agg es =
      let spans = matching_spans show_f64 agg es in
      elim (get_elem? spans (min es.selected (length spans - 1))) [
        | none ↦ none
        | some span ↦ opened es (find_root_id agg span.id)
      ]
