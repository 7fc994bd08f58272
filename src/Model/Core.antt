-- ===== src/Model/Core.antt =====
-- The state of tracing-console/src/model/core.rs, its modals, and the rows that are visible. The inputs
-- of the modals hold ASCII characters only. A `HashSet` is the list of its elements; an `Instant` is a
-- number of nanoseconds.
use tracing_console.Base.{
  ℕ, ◌-◌, min, Bool, true, false, ◌&&◌, ◌||◌, not, List, [], ◌∷◌, ◌++◌, Option, none, some,
  if◌then◌else◌, leb, ◌==◌, length, get_elem?, any,
}
use tracing_console.Base.Text.{Text}
use tracing_console.Host.Level.{WireLevelFilter}
use tracing_console.Aggregate.State.{Aggregator, new}
use tracing_console.Aggregate.Labels.{candidate_split_keys_for}
use tracing_console.Model.Visible.{VisibleRow, rows, visible_of}
use tracing_console.Model.Reals.{Reals}
use tracing_console.Model.Rate.{RateTracker, default_tracker}
use tracing_console.Model.Graph.State.{GraphState}
use tracing_console.Model.Explore.{ExploreState, TraceDetailState}
use tracing_console.Model.Explore.Rows.{TraceRow, visible_trace_rows}

pub data ConnectionStatus : Type 0 where
  connecting connected : ConnectionStatus
  disconnected : Text → ConnectionStatus

pub data Focus : Type 0 where
  stacks details : Focus

pub data ConfirmStatus : Type 0 where
  confirming running restart : ConfirmStatus
  failed : Text → ConfirmStatus

pub record ConfirmVersionSwitch : Type 0 where
  pub server_version : Text
  pub status : ConfirmStatus

abbrev pub level_options : List WireLevelFilter
level_options =
    WireLevelFilter.off ∷ WireLevelFilter.info ∷ WireLevelFilter.debug ∷ WireLevelFilter.trace ∷ []

pub data ViewMode (r : Reals) : Type 0 where
  table_view : ViewMode r
  graph_view : GraphState r → ViewMode r
  explore_view : ExploreState → ViewMode r
  trace_detail_view : TraceDetailState → ViewMode r

pub record Model (r : Reals) : Type 0 where
  pub agg : Aggregator
  pub expanded : List (List Text)
  pub selected : ℕ
  pub details_selected : ℕ
  pub focus : Focus
  pub connection : ConnectionStatus
  pub status : Option Text
  pub history_budget : ℕ
  pub cache_level : Option WireLevelFilter
  pub cache_chance : Option r.F64
  pub server_version : Option Text
  pub confirm_version_switch : Option ConfirmVersionSwitch
  pub quit_confirm_deadline : Option ℕ
  pub chance_input : Option Text
  pub view : ViewMode r
  pub rate : RateTracker

-- The modals' inputs.
unfoldable pub open_modal : Option Text → Option Text
open_modal slot = some []

unfoldable pub close_modal : Option Text → Option Text
close_modal slot = none

unfoldable pub pop : Text → Text
pop [] = []
pop (c ∷ []) = []
pop (c ∷ d ∷ s) = c ∷ pop (d ∷ s)

unfoldable pub backspace_modal : Option Text → Option Text
unfolding pop
backspace_modal none = none
backspace_modal (some buf) = some (pop buf)

-- The digits are 48 to 57, the point is 46.
unfoldable pub push_digit_or_decimal : Text → ℕ → Text × Bool
push_digit_or_decimal buf c =
    if (leb 48 c && leb c 57) || ((c == 46) && not (any (λ d. d == 46) buf))
    then (buf ++ c ∷ [], true)
    else (buf, false)

module _ (r : Reals) where
  unfoldable pub new_model : ℕ → Model r
  unfolding new default_tracker
  new_model history_budget = record {
    agg = new history_budget;
    expanded = [];
    selected = 0;
    details_selected = 0;
    focus = Focus.stacks;
    connection = ConnectionStatus.connecting;
    status = none;
    history_budget = history_budget;
    cache_level = none;
    cache_chance = none;
    server_version = none;
    confirm_version_switch = none;
    quit_confirm_deadline = none;
    chance_input = none;
    view = table_view;
    rate = default_tracker;
  }

  unfoldable pub expire_quit_confirm_if_due : ℕ → Model r → Model r
  expire_quit_confirm_if_due now m = elim m.quit_confirm_deadline [
    | none ↦ m
    | some deadline ↦ if leb deadline now then record m { quit_confirm_deadline = none } else m
  ]

  unfoldable pub visible_rows : Model r → List VisibleRow
  unfolding rows visible_of
  visible_rows m = visible_of m.expanded (rows m.agg)

  unfoldable pub selected_visible_row : Model r → Option VisibleRow
  unfolding visible_rows
  selected_visible_row m = get_elem? (visible_rows m) (min m.selected (length (visible_rows m) - 1))

  unfoldable pub candidate_split_keys : Model r → List Text
  unfolding selected_visible_row candidate_split_keys_for
  candidate_split_keys m = elim (selected_visible_row m) [
    | none ↦ []
    | some row ↦ candidate_split_keys_for m.agg row.key.stack
  ]

  unfoldable pub current_pane_len : Model r → ℕ
  unfolding visible_rows candidate_split_keys
  current_pane_len m = elim m.focus [
    | Focus.stacks ↦ length (visible_rows m)
    | Focus.details ↦ length (candidate_split_keys m)
  ]

  unfoldable pub current_selected : Model r → ℕ
  current_selected m = elim m.focus [
    | Focus.stacks ↦ m.selected
    | Focus.details ↦ m.details_selected
  ]

  unfoldable pub set_current_selected : ℕ → Model r → Model r
  set_current_selected idx m = elim m.focus [
    | Focus.stacks ↦ record m { selected = idx }
    | Focus.details ↦ record m { details_selected = idx }
  ]

  -- The span at the cursor of a trace, if the cursor stands on one. The outer option is the walk's.
  unfoldable pub trace_selected_span_id : Model r → Option (Option ℕ)
  unfolding visible_trace_rows
  trace_selected_span_id m = elim m.view [
    | table_view ↦ some none
    | graph_view g ↦ some none
    | explore_view es ↦ some none
    | trace_detail_view td ↦ elim (visible_trace_rows m.agg td) [
      | none ↦ none
      | some listed ↦ elim (get_elem? listed (min td.selected_idx (length listed - 1))) [
        | none ↦ some none
        | some row ↦ elim row [
          | TraceRow.span_row id depth has_children expanded ↦ some (some id)
          | TraceRow.event_row parent_id idx depth ↦ some none
        ]
      ]
    ]
  ]
