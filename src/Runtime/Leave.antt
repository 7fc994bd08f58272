-- ===== src/Runtime/Leave.antt =====
-- The keys that end the loop of tracing-console/src/runtime.rs.
use tracing_console.Base.{
  ℕ, ◌+◌, ◌<◌, ◌≡◌, ◌⊎◌, ◌∙◌, inl, inr, refl, ap, Bool, true, false, List, [], ◌∷◌, Option, none,
  some, arith,
}
use tracing_console.Base.Text.{Text}
use tracing_console.Model.Reals.{Reals}
use tracing_console.Model.Core.{Model, expire_quit_confirm_if_due}
use tracing_console.Model.Update.{Update}
use tracing_console.Model.Reduce.{apply}
use tracing_console.Model.Reduce.Version.{two_seconds, quit}
use tracing_console.Runtime.Configure.{Args}
use tracing_console.Runtime.{
  is_some, kind_of, flags_of, Console, Event, perform, take_update, running_step, step, Reach,
}
use tracing_console.Runtime.Keyboard.{KeyCode, Modal, View, route}
use tracing_console.Runtime.Synced.{expired-flags, Reach-IsSynced}

module _ (r : Reals) (show_f64 : ℕ → Text) (client : Text) where
  -- A sequence of events.
  abbrev pub steps : List (Event r) → Console r → Option (Console r)
  steps [] c = some c
  steps (e ∷ events) c = elim (step r show_f64 client e c) [ none ↦ none | some d ↦ steps events d ]

  steps-step :
      (e : Event r) (events : List (Event r)) (c d : Console r)
      → step r show_f64 client e c ≡ some d
      → steps (e ∷ events) c ≡ steps events d
  steps-step e events c d h = rw (steps, h) refl

  stopped-steps :
      (events : List (Event r)) (c : Console r) → c.stopped ≡ true → steps events c ≡ some c
  unfolding step
  stopped-steps [] c v = refl
  stopped-steps (e ∷ events) c v = steps-step e events c c (rw v refl) ∙ stopped-steps events c v

  -- The ticker ticks at these readings of the clock.
  abbrev pub ticks : List ℕ → List (Event r) → List (Event r)
  ticks [] events = events
  ticks (t ∷ ts) events = Event.ticked t ∷ ticks ts events

  abbrev pub AllBefore : ℕ → List ℕ → Type 0
  AllBefore deadline [] = Unit {0}
  AllBefore deadline (t ∷ ts) = (t < deadline) × AllBefore deadline ts

  -- `q` is pressed, the ticker ticks, and the loop takes what the key sent.
  abbrev pub quit_round : List ℕ → ℕ → ℕ → List (Event r) → List (Event r)
  quit_round ts now later events =
      Event.pressed true (KeyCode.char b'q') ∷ ticks ts (Event.taken now later ∷ events)

  -- The loop runs with this queue, and no modal is open.
  abbrev IsReady : List (Update r.F64) → Console r → Type 0
  IsReady queue c =
      (c.stopped ≡ false)
      × (c.queue ≡ queue)
      × (c.flags.modal_kind ≡ Modal.no_modal)
      × (kind_of r c.model ≡ Modal.no_modal)

  -- The prompt stays open on the way from the first console to the second, if nothing ticks too late.
  abbrev IsPrompt : List ℕ → Console r → Console r → Type 0
  IsPrompt ts c d =
      (deadline : ℕ)
      → c.model.quit_confirm_deadline ≡ some deadline
      → AllBefore deadline ts
      → d.model.quit_confirm_deadline ≡ some deadline

  abbrev ticked_console : ℕ → Console r → Console r
  ticked_console t c =
      let m = expire_quit_confirm_if_due r t c.model in
      record c {
        model = m;
        flags = record (c.flags) { quit_confirm_active = is_some m.quit_confirm_deadline };
      }

  tick :
      (t : ℕ) (c : Console r)
      → c.stopped ≡ false
      → step r show_f64 client (Event.ticked t) c ≡ some (ticked_console t c)
  unfolding step running_step
  tick t c v = rw v refl

  ticked-IsReady :
      (t : ℕ) (queue : List (Update r.F64)) (c : Console r)
      → IsReady queue c
      → IsReady queue (ticked_console t c)
  ticked-IsReady t queue c v = (v.0, v.1, v.2, (expired-flags r t c.model).0 ∙ v.3)

  ticked-deadline :
      (t deadline : ℕ) (m : Model r)
      → m.quit_confirm_deadline ≡ some deadline
      → t < deadline
      → (expire_quit_confirm_if_due r t m).quit_confirm_deadline ≡ some deadline
  unfolding expire_quit_confirm_if_due
  ticked-deadline t deadline m e h = ground arith

  ticks-IsReady :
      (ts : List ℕ) (events : List (Event r)) (queue : List (Update r.F64)) (c : Console r)
      → IsReady queue c
      → (d : Console r) × (steps (ticks ts events) c ≡ steps events d)
        × IsReady queue d
        × IsPrompt ts c d
  ticks-IsReady [] events queue c v = (c, refl, v, λ deadline e h. e)
  ticks-IsReady (t ∷ ts) events queue c v =
      let (d, same, ready, prompt) =
        ticks-IsReady ts events queue (ticked_console t c) (ticked-IsReady t queue c v) in
      (
        d,
        steps-step (Event.ticked t) (ticks ts events) c (ticked_console t c) (tick t c v.0) ∙ same,
        ready,
        λ deadline e h. prompt deadline (ticked-deadline t deadline c.model e h.0) h.1,
      )

  route_q :
      (quitting : Bool) (view : View)
      → route r.F64 Modal.no_modal quitting view (KeyCode.char b'q') ≡ some Update.quit
  unfolding route
  route_q quitting View.table = refl
  route_q quitting View.graph = refl
  route_q quitting View.explore = refl
  route_q quitting View.trace_detail = refl

  flagged :
      (m : Model r) → kind_of r m ≡ Modal.no_modal → (flags_of r m).modal_kind ≡ Modal.no_modal
  unfolding flags_of
  flagged m e = e

  press_q :
      (c : Console r)
      → IsReady [] c
      → step r show_f64 client (Event.pressed true (KeyCode.char b'q')) c
        ≡ some (record c { queue = Update.quit ∷ [] })
  unfolding step running_step
  press_q c v = ground (arith, route_q c.flags.quit_confirm_active c.flags.current_view)

  abbrev taken_quit : ℕ → ℕ → Console r → Console r
  taken_quit now later c =
      perform r (quit r now later c.model).1
        (record c { model = (quit r now later c.model).0; queue = [] })

  take_quit :
      (now later : ℕ) (c : Console r)
      → IsReady (Update.quit ∷ []) c
      → step r show_f64 client (Event.taken now later) c ≡ some (taken_quit now later c)
  unfolding step running_step take_update apply
  take_quit now later c v = rw (v.0, v.1) refl

  round :
      (ts : List ℕ) (now later : ℕ) (events : List (Event r)) (c : Console r)
      → IsReady [] c
      → (x : Console r) × (steps (quit_round ts now later events) c
          ≡ steps events (taken_quit now later x))
        × IsReady (Update.quit ∷ []) x
        × IsPrompt ts c x
  round ts now later events c v =
      let pressed = record c { queue = Update.quit ∷ [] } in
      let (x, same, ready, prompt) =
        ticks-IsReady ts (Event.taken now later ∷ events) (Update.quit ∷ []) pressed
          (v.0, refl, v.2, v.3) in
      (
        x,
        steps-step (Event.pressed true (KeyCode.char b'q'))
              (ticks ts (Event.taken now later ∷ events)) c pressed (press_q c v)
            ∙ same
            ∙ steps-step (Event.taken now later) events x (taken_quit now later x)
                (take_quit now later x ready),
        ready,
        prompt,
      )

  taken_quit-cases :
      (now later : ℕ) (c : Console r)
      → IsReady (Update.quit ∷ []) c
      → ((taken_quit now later c).stopped ≡ true)
        ⊎ (IsReady [] (taken_quit now later c)
            × ((taken_quit now later c).model.quit_confirm_deadline ≡ some (later + two_seconds)))
  unfolding quit perform flags_of kind_of
  taken_quit-cases now later c v = ground arith

  taken_in_time :
      (now later deadline : ℕ) (c : Console r)
      → c.model.quit_confirm_deadline ≡ some deadline
      → now < deadline
      → (taken_quit now later c).stopped ≡ true
  unfolding quit perform
  taken_in_time now later deadline c e h = ground arith

  second_round :
      (between ts : List ℕ) (now later deadline : ℕ) (c : Console r)
      → IsReady [] c
      → c.model.quit_confirm_deadline ≡ some deadline
      → AllBefore deadline between
      → AllBefore deadline ts
      → now < deadline
      → (d : Console r) × (steps (ticks between (quit_round ts now later [])) c ≡ some d)
        × (d.stopped ≡ true)
  second_round between ts now later deadline c v e early early' soon =
      let (b, waited, ready, kept) = ticks-IsReady between (quit_round ts now later []) [] c v in
      let (x, went, ready', kept') = round ts now later [] b ready in
      (
        taken_quit now later x,
        waited ∙ went,
        taken_in_time now later deadline x (kept' deadline (kept deadline e early) early') soon,
      )

  -- In a reachable console that runs, has no update waiting and no modal open, pressing `q` twice ends the
  -- loop in any view, if the second press is taken less than two seconds after the first was, and if from
  -- the first press on nothing happens but the presses, the taking of what they send, and ticks: any before
  -- the first press is taken, and from there on only ticks within the two seconds. The loop does not panic.
  pub q_twice_ends :
      {args : Args r.F64} (c : Console r) (ts between ts' : List ℕ) (now later now' later' : ℕ)
      → Reach r show_f64 client args c
      → c.stopped ≡ false
      → c.queue ≡ []
      → kind_of r c.model ≡ Modal.no_modal
      → AllBefore (later + two_seconds) between
      → AllBefore (later + two_seconds) ts'
      → now' < later + two_seconds
      → (d : Console r) × (steps
            (quit_round ts now later (ticks between (quit_round ts' now' later' [])))
            c
          ≡ some d)
        × (d.stopped ≡ true)
  q_twice_ends c ts between ts' now later now' later' reached runs taken closed early early' soon =
      elim (Reach-IsSynced r show_f64 client reached) [
        | inl over ↦ absurd (cc)
        | inr synced ↦
            let ready : IsReady [] c =
              (runs, taken, ap (λ f. f.modal_kind) synced ∙ flagged c.model closed, closed) in
            let rest = ticks between (quit_round ts' now' later' []) in
            let (x, went, waiting, kept) = round ts now later rest c ready in
            elim (taken_quit-cases now later x waiting) [
              | inl over ↦ (
                taken_quit now later x,
                went ∙ stopped-steps rest (taken_quit now later x) over,
                over,
              )
              | inr (again, prompt) ↦
                  let (d, ends, over) =
                    second_round between ts' now' later' (later + two_seconds)
                      (taken_quit now later x) again prompt early early' soon in
                  (d, went ∙ ends, over)
            ]
      ]
