-- ===== src/Tests/Tree.antt =====
-- Examples of expanding and collapsing.
use tracing_console.Base.{
  ◌≡◌, refl, true, false, not, [], ◌∷◌, map, some, get_elem?, keep, All, arith,
}
use tracing_console.Aggregate.Bucket.{default_bucket, to_stack_stats}
use tracing_console.Model.Visible.{VisibleRow, rows, starts_with_stack}
use tracing_console.Model.Core.{Model, visible_rows}
use tracing_console.Model.Reduce.Table.{expand_all_selected, collapse_selected}
use tracing_console.Model.Reduce.Prefixes.{goes_below}
use tracing_console.Model.Reduce.Tree.{IsShown, descendants-IsShown, collapse_hides}
use tracing_console.Tests.Model.{whole, table}

abbrev top_row : VisibleRow
top_row = record {
  key = record { stack = (97 ∷ []) ∷ []; splits = [] };
  stats = to_stack_stats default_bucket;
  depth = 0;
  has_children = true;
  is_expanded = false;
}

top_row-chosen : get_elem? (visible_rows whole table) table.selected ≡ some top_row
unfolding visible_rows to_stack_stats default_bucket
top_row-chosen = refl

descendants-IsShown_example :
    ((expand_all_selected whole table).agg ≡ table.agg)
    × All
        (λ e.
          starts_with_stack e.0.stack top_row.key.stack ≡ true
          → IsShown e.0 (visible_rows whole (expand_all_selected whole table)))
        (rows table.agg)
descendants-IsShown_example = descendants-IsShown whole table top_row refl top_row-chosen

abbrev open_table : Model whole
open_table = record table { expanded = top_row.key.stack ∷ [] }

abbrev open_row : VisibleRow
open_row = record top_row { is_expanded = true }

open_row-chosen : get_elem? (visible_rows whole open_table) open_table.selected ≡ some open_row
unfolding visible_rows to_stack_stats default_bucket
open_row-chosen = refl

collapse_hides_example :
    map
      (λ (v : VisibleRow). (v.key, v.stats))
      (visible_rows whole (collapse_selected whole open_table))
    ≡ keep
        (λ e. not (goes_below open_row.key.stack e))
        (map (λ (v : VisibleRow). (v.key, v.stats)) (visible_rows whole open_table))
collapse_hides_example =
    collapse_hides whole open_table open_row refl open_row-chosen refl (omega arith)
