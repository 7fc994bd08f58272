-- ===== src/Tests/Console.antt =====
-- Examples of the reducer and of the loop around it.
use tracing_console.Base.{
  ℕ, ◌+◌, ◌<◌, ◌≡◌, refl, arith, true, false, List, [], ◌∷◌, Option, none, some,
}
use tracing_console.Base.Text.{Text, show_nat}
use tracing_console.Host.Message.{ResponseBody, Response}
use tracing_console.Model.Core.{Model, new_model}
use tracing_console.Model.Update.{Update, Effect}
use tracing_console.Model.Reduce.{apply}
use tracing_console.Model.Reduce.Version.{two_seconds, quit}
use tracing_console.Model.Reduce.Quit.{Moment, PressedAt, moments, quit_is_confirmed}
use tracing_console.Model.Reduce.Session.{session_of, loud, session_step}
use tracing_console.Model.Reduce.Session.Laws.{apply-Session}
use tracing_console.Model.Reduce.Switches.{span_received}
use tracing_console.Model.Rate.{record_event}
use tracing_console.Aggregate.State.{
  absorb, absorb_resolved, resolve, resolve_root, absorb_bucketed, commit, make_room, charge_parent,
  enter_ring, take_waiters, drain,
}
use tracing_console.Aggregate.State.Keys.{collect_splits}
use tracing_console.Runtime.Configure.{Args, auto_configure}
use tracing_console.Runtime.{
  Console, start_console, Event, step, running_step, resp_to_update, take_update, perform, flags_of,
  kind_of, view_tag, Reach, here, next,
}
use tracing_console.Runtime.Keyboard.{KeyCode, Modal}
use tracing_console.Runtime.Keyboard.{route}
use tracing_console.Base.Assoc
use tracing_console.Base.OrdMap.{lookup}
use tracing_console.Model.Explore.{ExploreState, new_explore}
use tracing_console.Model.Reduce.Views.{enter_explore, exit_explore, leave_explore}
use tracing_console.Model.Reduce.Restore.{explorer_of}
use tracing_console.Runtime.Keys.{Restored, press_restores}
use tracing_console.Runtime.Leave.{steps, AllBefore, ticks, quit_round, q_twice_ends}
use tracing_console.Runtime.Installers.{OneInstaller, Reach-OneInstaller}
use tracing_console.Tests.Model.{whole, root_span}

abbrev pub client : Text
client = 49 ∷ []

abbrev span_response : Response ℕ
span_response = record { id = 1; control = 0; body = ResponseBody.span root_span }

abbrev or_same : Console whole → Option (Console whole) → Console whole
or_same c none = c
or_same c (some d) = d

-- A console after an event.
abbrev pub after : Event whole → Console whole → Console whole
after e c = or_same c (step whole show_nat client e c)

-- The program is started with `--set-chance 40`.
abbrev pub args : Args ℕ
args = record { history = 2; set_level = none; set_chance = some 40 }

abbrev pub fresh : Console whole
fresh = start_console whole args

abbrev waiting : Console whole
waiting = after (Event.received true span_response) fresh

abbrev listed : Console whole
listed = after (Event.taken 0 0) waiting

abbrev keyed : Console whole
keyed = after (Event.pressed true (KeyCode.char b'e')) listed

-- The explorer is open on the stack of the span.
abbrev exploring : Console whole
exploring = after (Event.taken 0 0) keyed

abbrev escaped : Console whole
escaped = after (Event.pressed true KeyCode.esc) exploring

abbrev left : Console whole
left = after (Event.taken 0 0) escaped

console_steps :
    (step whole show_nat client (Event.received true span_response) fresh ≡ some waiting)
    × (step whole show_nat client (Event.taken 0 0) waiting ≡ some listed)
    × (step whole show_nat client (Event.pressed true (KeyCode.char b'e')) listed ≡ some keyed)
    × (step whole show_nat client (Event.taken 0 0) keyed ≡ some exploring)
    × (step whole show_nat client (Event.pressed true KeyCode.esc) exploring ≡ some escaped)
    × (step whole show_nat client (Event.taken 0 0) escaped ≡ some left)
unfolding step running_step start_console auto_configure resp_to_update take_update apply
    span_received record_event absorb absorb_resolved resolve resolve_root collect_splits
    absorb_bucketed commit make_room charge_parent enter_ring take_waiters drain new_model perform
    flags_of kind_of view_tag lookup route enter_explore exit_explore leave_explore Assoc.insert
console_steps = (refl, refl, refl, refl, refl, refl)

exploring-Reach : Reach whole show_nat client args exploring
exploring-Reach =
    next
      (next
        (next (next here (Event.received true span_response) console_steps.0) (Event.taken 0 0)
          console_steps.1)
        (Event.pressed true (KeyCode.char b'e')) console_steps.2)
      (Event.taken 0 0) console_steps.3

abbrev explorer : ExploreState
explorer = new_explore ((97 ∷ []) ∷ []) none

exploring_state :
    (exploring.stopped ≡ false)
    × (exploring.queue ≡ [])
    × (explorer_of whole exploring.model.view ≡ some explorer)
unfolding step running_step start_console auto_configure resp_to_update take_update apply
    span_received record_event absorb absorb_resolved resolve resolve_root collect_splits
    absorb_bucketed commit make_room charge_parent enter_ring take_waiters drain new_model perform
    flags_of kind_of view_tag lookup route enter_explore exit_explore leave_explore Assoc.insert
    new_explore
exploring_state = (refl, refl, refl)

press_restores_example :
    Restored whole explorer exploring.sent left.sent (explorer_of whole left.model.view)
press_restores_example =
    press_restores whole show_nat client exploring escaped left explorer KeyCode.esc true 0 0
      exploring-Reach exploring_state.0 exploring_state.1 exploring_state.2 console_steps.4
      console_steps.5

in_time : 200 < 105 + two_seconds
in_time = omega arith

exploring_closed : kind_of whole exploring.model ≡ Modal.no_modal
unfolding step running_step start_console auto_configure resp_to_update take_update apply
    span_received record_event absorb absorb_resolved resolve resolve_root collect_splits
    absorb_bucketed commit make_room charge_parent enter_ring take_waiters drain new_model perform
    flags_of kind_of view_tag lookup route enter_explore exit_explore leave_explore Assoc.insert
    new_explore
exploring_closed = refl

early : AllBefore whole show_nat client (105 + two_seconds) (110 ∷ 120 ∷ [])
early = (omega arith, (omega arith, tt))

q_twice_ends_example :
    (d : Console whole) × (steps whole show_nat client
        (quit_round whole show_nat client (90 ∷ []) 100 105 (
          ticks whole show_nat client
            (110 ∷ 120 ∷ [])
            (quit_round whole show_nat client [] 200 210 [])))
        exploring
      ≡ some d)
    × (d.stopped ≡ true)
q_twice_ends_example =
    q_twice_ends whole show_nat client exploring (90 ∷ []) (110 ∷ 120 ∷ []) [] 100 105 200 210
      exploring-Reach exploring_state.0 exploring_state.1 exploring_closed early tt in_time

Reach-OneInstaller_example : OneInstaller whole exploring
Reach-OneInstaller_example = Reach-OneInstaller whole show_nat client exploring-Reach

-- A first press of quit, and a tick.
abbrev pressed_once : List (Moment whole)
pressed_once = Moment.updated 0 5 Update.quit ∷ Moment.ticked 9 ∷ []

abbrev prompted : Model whole
prompted = record (new_model whole 2) { quit_confirm_deadline = some (5 + two_seconds) }

prompted-reached : moments whole show_nat client pressed_once (new_model whole 2) ≡ some prompted
unfolding moments quit new_model
prompted-reached = refl

second_press :
    apply whole show_nat client 10 11 Update.quit prompted
    ≡ some (record prompted { quit_confirm_deadline = none }, Effect.quit)
unfolding apply quit
second_press = refl

quit_is_confirmed_example :
    (◌≡◌ {A = Update ℕ} Update.quit Update.quit)
    × (at : ℕ) × PressedAt whole at pressed_once
    × (10 < at + two_seconds)
quit_is_confirmed_example =
    quit_is_confirmed whole show_nat client 2 pressed_once prompted
      (record prompted { quit_confirm_deadline = none }) 10 11 Update.quit prompted-reached
      second_press

apply-Session_example :
    (session_of whole (record prompted { quit_confirm_deadline = none }), loud whole Effect.quit)
    ≡ session_step whole client 10 11 Update.quit (session_of whole prompted)
apply-Session_example =
    apply-Session whole show_nat client 10 11 Update.quit prompted
      (record prompted { quit_confirm_deadline = none }) Effect.quit second_press
