-- ===== src/Tests/Numbers.antt =====
-- Examples of the numbers that the loop sends, of the reducer's result and of a change of the split keys.
use tracing_console.Base.{ℕ, ◌≡◌, refl, arith, true, List, [], ◌∷◌, some}
use tracing_console.Base.Text.{Text, show_nat}
use tracing_console.Host.Protocol.{WireFieldValue, WireSpan}
use tracing_console.Aggregate.State.{Aggregator, new, absorb}
use tracing_console.Aggregate.State.Rebuild.{set_split_keys}
use tracing_console.Aggregate.State.Absorb.{IsAggregator, new-IsAggregator, absorb_total}
use tracing_console.Aggregate.State.Refeed.{set_split_keys_total}
use tracing_console.Model.Core.{Model, new_model, push_digit_or_decimal, open_modal}
use tracing_console.Model.Update.{Update}
use tracing_console.Model.Reduce.{apply}
use tracing_console.Model.Reduce.Views.{push_number, asked_chance, chance_input_commit}
use tracing_console.Runtime.Configure.{Outgoing, auto_configure}
use tracing_console.Runtime.{
  Console, Event, step, running_step, start_console, take_update, perform, flags_of, kind_of,
  view_tag, Reach, here, next,
}
use tracing_console.Runtime.Keyboard.{KeyCode, route}
use tracing_console.Runtime.Numbers.{IsNumeric, Reach-IsNumeric}
use tracing_console.Tests.Model.{whole, root_span}
use tracing_console.Tests.Console.{client, after, args, fresh}

-- The chance is opened, a digit is typed, and it is sent.
abbrev asked : Console whole
asked = after (Event.pressed true (KeyCode.char b'C')) fresh

abbrev opened : Console whole
opened = after (Event.taken 0 0) asked

abbrev typed : Console whole
typed = after (Event.pressed true (KeyCode.char b'7')) opened

abbrev shown : Console whole
shown = after (Event.taken 0 0) typed

abbrev entered : Console whole
entered = after (Event.pressed true KeyCode.enter) shown

abbrev committed : Console whole
committed = after (Event.taken 0 0) entered

chance_steps :
    (step whole show_nat client (Event.pressed true (KeyCode.char b'C')) fresh ≡ some asked)
    × (step whole show_nat client (Event.taken 0 0) asked ≡ some opened)
    × (step whole show_nat client (Event.pressed true (KeyCode.char b'7')) opened ≡ some typed)
    × (step whole show_nat client (Event.taken 0 0) typed ≡ some shown)
    × (step whole show_nat client (Event.pressed true KeyCode.enter) shown ≡ some entered)
    × (step whole show_nat client (Event.taken 0 0) entered ≡ some committed)
unfolding step running_step start_console auto_configure take_update apply new_model perform
    flags_of kind_of view_tag route open_modal push_number push_digit_or_decimal chance_input_commit
    asked_chance
chance_steps = (refl, refl, refl, refl, refl, refl)

committed-sent : committed.sent ≡ Outgoing.set_cache_chance 40 ∷ Outgoing.set_cache_chance 1 ∷ []
unfolding step running_step start_console auto_configure take_update apply new_model perform
    flags_of kind_of view_tag route open_modal push_number push_digit_or_decimal chance_input_commit
    asked_chance
committed-sent = refl

committed-Reach : Reach whole show_nat client args committed
committed-Reach =
    next
      (next
        (next
          (next
            (next (next here (Event.pressed true (KeyCode.char b'C')) chance_steps.0)
              (Event.taken 0 0) chance_steps.1)
            (Event.pressed true (KeyCode.char b'7')) chance_steps.2)
          (Event.taken 0 0) chance_steps.3)
        (Event.pressed true KeyCode.enter) chance_steps.4)
      (Event.taken 0 0) chance_steps.5

Reach-IsNumeric_example : IsNumeric whole committed
Reach-IsNumeric_example = Reach-IsNumeric whole show_nat client refl refl committed-Reach

abbrev split_key : Text
split_key = 107 ∷ []

-- A closed root with a field by which the buckets are split.
abbrev keyed_span : WireSpan
keyed_span = record root_span {
  fields = (split_key, WireFieldValue.u64 7) ∷ [];
  closed_at_ns = some 25;
}

fed :
    (a : Aggregator) × (inserted : List ℕ) × (absorb show_nat keyed_span (new 2)
      ≡ some (a, inserted))
    × IsAggregator a
fed = absorb_total show_nat keyed_span (new 2) (new-IsAggregator 2 (omega arith) (omega arith))

set_split_keys_total_example :
    (b : Aggregator) × (set_split_keys show_nat (split_key ∷ []) fed.0 ≡ some b)
    × IsAggregator b
    × (b.split_keys ≡ split_key ∷ [])
    × (b.history_budget ≡ fed.0.history_budget)
    × (b.pending ≡ fed.0.pending)
set_split_keys_total_example = set_split_keys_total show_nat (split_key ∷ []) fed.0 fed.3
