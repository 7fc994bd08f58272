-- ===== src/Runtime/Keyboard.antt =====
-- `keyboard_loop` of tracing-console/src/runtime.rs: the update that a key sends. The key codes are those of
-- the terminal's crate, of which the loop tells these apart.
pub mod Laws
use tracing_console.Base.{
  ℕ, Bool, true, false, List, [], ◌∷◌, Option, none, some, if◌then◌else◌, ◌==◌,
}
use tracing_console.Host.Level.{WireLevelFilter}
use tracing_console.Model.Update.{Update}

pub data KeyCode : Type 0 where
  char : ℕ → KeyCode
  backspace enter esc tab back_tab up down left right other : KeyCode

-- The values of the two shared flags.
pub data Modal : Type 0 where
  no_modal chance graph_agg graph_window graph_lookback explore_search confirm_version_switch :
      Modal

pub data View : Type 0 where
  table graph explore trace_detail : View

abbrev pub or_else : {A : Type 0} → Option A → Option A → Option A
or_else none b = b
or_else (some a) b = some a

module _ (F64 : Type 0) where
  -- The update of a character in a table of bindings.
  unfoldable pub bound : List (ℕ × Update F64) → ℕ → Option (Update F64)
  bound [] c = none
  bound ((k, u) ∷ bindings) c = let rest = bound bindings c in if c == k then some u else rest

  -- An input takes characters, backspace, enter and escape.
  unfoldable pub input_key :
      (ℕ → Update F64) → Update F64 → Update F64 → Update F64 → KeyCode → Option (Update F64)
  input_key typed erased commit cancel (KeyCode.char c) = some (typed c)
  input_key typed erased commit cancel KeyCode.backspace = some erased
  input_key typed erased commit cancel KeyCode.enter = some commit
  input_key typed erased commit cancel KeyCode.esc = some cancel
  input_key typed erased commit cancel _ = none

  abbrev pub confirm_bindings : List (ℕ × Update F64)
  confirm_bindings =
      (b'y', Update.confirm_version_switch_yes)
      ∷ (b'Y', Update.confirm_version_switch_yes)
      ∷ (b'n', Update.confirm_version_switch_no)
      ∷ (b'N', Update.confirm_version_switch_no)
      ∷ []

  unfoldable pub confirm_key : KeyCode → Option (Update F64)
  unfolding bound
  confirm_key (KeyCode.char c) = bound confirm_bindings c
  confirm_key KeyCode.esc = some Update.confirm_version_switch_no
  confirm_key _ = none

  unfoldable pub modal_key : Modal → KeyCode → Option (Update F64)
  unfolding input_key confirm_key
  modal_key Modal.no_modal k = none
  modal_key Modal.chance k =
      input_key Update.chance_input_char Update.chance_input_backspace Update.chance_input_commit
        Update.chance_input_cancel k
  modal_key Modal.graph_agg k =
      input_key Update.graph_agg_input_char Update.graph_agg_input_backspace
        Update.graph_agg_input_commit Update.graph_agg_input_cancel k
  modal_key Modal.graph_window k =
      input_key Update.graph_window_input_char Update.graph_window_input_backspace
        Update.graph_window_input_commit Update.graph_window_input_cancel k
  modal_key Modal.graph_lookback k =
      input_key Update.graph_lookback_input_char Update.graph_lookback_input_backspace
        Update.graph_lookback_input_commit Update.graph_lookback_input_cancel k
  modal_key Modal.explore_search k =
      input_key Update.explore_search_char Update.explore_search_backspace
        Update.explore_search_commit Update.explore_search_cancel k
  modal_key Modal.confirm_version_switch k = confirm_key k

  -- The shifted letters and `v`, which every view shares.
  abbrev pub shared_bindings : List (ℕ × Update F64)
  shared_bindings =
      (b'O', Update.request_cache_level WireLevelFilter.off)
      ∷ (b'I', Update.request_cache_level WireLevelFilter.info)
      ∷ (b'D', Update.request_cache_level WireLevelFilter.debug)
      ∷ (b'T', Update.request_cache_level WireLevelFilter.trace)
      ∷ (b'v', Update.begin_confirm_version_switch)
      ∷ []

  abbrev pub graph_bindings : List (ℕ × Update F64)
  graph_bindings =
      (b'q', Update.quit)
      ∷ (b's', Update.enter_table)
      ∷ (b'e', Update.enter_explore)
      ∷ (b'a', Update.begin_graph_agg_input)
      ∷ (b'm', Update.toggle_graph_metric)
      ∷ (b'w', Update.begin_graph_window_input)
      ∷ (b'l', Update.begin_graph_lookback_input)
      ∷ (b'u', Update.toggle_graph_time_labels)
      ∷ (b'j', Update.graph_select_down)
      ∷ (b'k', Update.graph_select_up)
      ∷ (b'h', Update.graph_sort_column_left)
      ∷ (b' ', Update.graph_toggle_split)
      ∷ []

  unfoldable pub graph_key : KeyCode → Option (Update F64)
  unfolding bound
  graph_key (KeyCode.char c) = bound graph_bindings c
  graph_key KeyCode.esc = some Update.toggle_graph
  graph_key KeyCode.tab = some Update.graph_switch_focus
  graph_key KeyCode.back_tab = some Update.graph_switch_focus
  graph_key KeyCode.down = some Update.graph_select_down
  graph_key KeyCode.up = some Update.graph_select_up
  graph_key KeyCode.left = some Update.graph_sort_column_left
  graph_key KeyCode.right = some Update.graph_sort_column_right
  graph_key KeyCode.backspace = none
  graph_key KeyCode.enter = none
  graph_key KeyCode.other = none

  abbrev pub explore_bindings : List (ℕ × Update F64)
  explore_bindings =
      (b'q', Update.quit)
      ∷ (b's', Update.enter_table)
      ∷ (b'g', Update.enter_graph)
      ∷ (b'/', Update.begin_explore_search)
      ∷ (b'i', Update.explore_invert_sort)
      ∷ (b'j', Update.explore_select_down)
      ∷ (b'k', Update.explore_select_up)
      ∷ (b'h', Update.explore_sort_left)
      ∷ (b'l', Update.explore_sort_right)
      ∷ []

  unfoldable pub explore_key : KeyCode → Option (Update F64)
  unfolding bound
  explore_key (KeyCode.char c) = bound explore_bindings c
  explore_key KeyCode.esc = some Update.exit_explore
  explore_key KeyCode.down = some Update.explore_select_down
  explore_key KeyCode.up = some Update.explore_select_up
  explore_key KeyCode.left = some Update.explore_sort_left
  explore_key KeyCode.right = some Update.explore_sort_right
  explore_key KeyCode.enter = some Update.explore_open_trace
  explore_key KeyCode.backspace = none
  explore_key KeyCode.tab = none
  explore_key KeyCode.back_tab = none
  explore_key KeyCode.other = none

  abbrev pub trace_bindings : List (ℕ × Update F64)
  trace_bindings =
      (b'q', Update.quit)
      ∷ (b's', Update.enter_table)
      ∷ (b'g', Update.enter_graph)
      ∷ (b'e', Update.exit_trace_detail)
      ∷ []

  unfoldable pub trace_key : KeyCode → Option (Update F64)
  unfolding bound
  trace_key (KeyCode.char c) = bound trace_bindings c
  trace_key KeyCode.esc = some Update.exit_trace_detail
  trace_key KeyCode.down = some Update.trace_detail_select_down
  trace_key KeyCode.up = some Update.trace_detail_select_up
  trace_key KeyCode.right = some Update.trace_detail_expand
  trace_key KeyCode.left = some Update.trace_detail_collapse
  trace_key KeyCode.enter = none
  trace_key KeyCode.backspace = none
  trace_key KeyCode.tab = none
  trace_key KeyCode.back_tab = none
  trace_key KeyCode.other = none

  abbrev pub table_bindings : List (ℕ × Update F64)
  table_bindings =
      (b'q', Update.quit)
      ∷ (b'j', Update.select_down)
      ∷ (b'k', Update.select_up)
      ∷ (b'l', Update.expand_selected)
      ∷ (b'h', Update.collapse_selected)
      ∷ (b' ', Update.toggle_split_selected)
      ∷ (b'C', Update.begin_chance_input)
      ∷ (b'g', Update.toggle_graph)
      ∷ (b'e', Update.enter_explore)
      ∷ []

  unfoldable pub table_key : KeyCode → Option (Update F64)
  unfolding bound
  table_key (KeyCode.char c) = bound table_bindings c
  table_key KeyCode.esc = some Update.quit
  table_key KeyCode.down = some Update.select_down
  table_key KeyCode.up = some Update.select_up
  table_key KeyCode.right = some Update.expand_selected
  table_key KeyCode.enter = some Update.expand_all_selected
  table_key KeyCode.left = some Update.collapse_selected
  table_key KeyCode.tab = some Update.switch_focus
  table_key KeyCode.back_tab = some Update.switch_focus
  table_key KeyCode.backspace = none
  table_key KeyCode.other = none

  unfoldable pub view_key : View → KeyCode → Option (Update F64)
  unfolding graph_key explore_key trace_key table_key
  view_key View.graph k = graph_key k
  view_key View.explore k = explore_key k
  view_key View.trace_detail k = trace_key k
  view_key View.table k = table_key k

  -- With no modal open. Escape dismisses a prompt to quit.
  unfoldable pub open_key : Bool → View → KeyCode → Option (Update F64)
  unfolding bound view_key
  open_key quitting view (KeyCode.char c) =
      or_else (bound shared_bindings c) (view_key view (KeyCode.char c))
  open_key true view KeyCode.esc = some Update.quit_confirm_dismiss
  open_key false view KeyCode.esc = view_key view KeyCode.esc
  open_key quitting view KeyCode.backspace = view_key view KeyCode.backspace
  open_key quitting view KeyCode.enter = view_key view KeyCode.enter
  open_key quitting view KeyCode.tab = view_key view KeyCode.tab
  open_key quitting view KeyCode.back_tab = view_key view KeyCode.back_tab
  open_key quitting view KeyCode.up = view_key view KeyCode.up
  open_key quitting view KeyCode.down = view_key view KeyCode.down
  open_key quitting view KeyCode.left = view_key view KeyCode.left
  open_key quitting view KeyCode.right = view_key view KeyCode.right
  open_key quitting view KeyCode.other = view_key view KeyCode.other

  -- The body of the loop; none is that the key is dropped.
  unfoldable pub route : Modal → Bool → View → KeyCode → Option (Update F64)
  unfolding modal_key open_key
  route Modal.no_modal quitting view k = open_key quitting view k
  route Modal.chance quitting view k = modal_key Modal.chance k
  route Modal.graph_agg quitting view k = modal_key Modal.graph_agg k
  route Modal.graph_window quitting view k = modal_key Modal.graph_window k
  route Modal.graph_lookback quitting view k = modal_key Modal.graph_lookback k
  route Modal.explore_search quitting view k = modal_key Modal.explore_search k
  route Modal.confirm_version_switch quitting view k = modal_key Modal.confirm_version_switch k
