-- ===== src/Runtime/Numbers.antt =====
-- The numbers that the loop of tracing-console/src/runtime.rs sends to the server, and the window of its graph.
use tracing_console.Base.{
  ℕ, ◌≡◌, inl, inr, sym, Bool, true, false, Option-cases, List, [], ◌∷◌, ◌++◌, Option, none, some,
  arith,
}
use tracing_console.Base.Text.{Text}
use mathlib.Core.Path.{subst}
use tracing_console.Host.Level.{WireLevelFilter}
use tracing_console.Model.Reals.{Reals}
use tracing_console.Model.Core.{Model, new_model, expire_quit_confirm_if_due}
use tracing_console.Model.Update.{Update, Effect}
use tracing_console.Model.Reduce.{apply}
use tracing_console.Model.Reduce.Windows.{is_window}
use tracing_console.Model.Reduce.Valid.{is_percent, IsAskable, HasWindow, apply-HasWindow}
use tracing_console.Runtime.Configure.{Outgoing, Args, auto_configure}
use tracing_console.Runtime.{
  Console, start_console, Event, enqueue, end_installer, resp_to_update, perform, take_update,
  running_step, Reach, here, next,
}
use tracing_console.Runtime.Keyboard.{route}
use tracing_console.Runtime.Synced.{step-cases}

module _ (r : Reals) where
  -- The chances that were sent are percentages.
  abbrev pub IsAsked : List (Outgoing r.F64) → Type 0
  IsAsked [] = Unit {0}
  IsAsked (Outgoing.set_cache_level level ∷ sent) = IsAsked sent
  IsAsked (Outgoing.set_cache_chance pct ∷ sent) = (is_percent r pct ≡ true) × IsAsked sent

  -- The argument is absent or a percentage.
  abbrev pub IsGiven : Option r.F64 → Type 0
  IsGiven none = Unit {0}
  IsGiven (some pct) = is_percent r pct ≡ true

  abbrev pub IsNumeric : Console r → Type 0
  IsNumeric c = IsAsked c.sent × HasWindow r c.model.view

  configured-IsAsked : (args : Args r.F64) → IsGiven args.set_chance → IsAsked (auto_configure args)
  unfolding auto_configure
  configured-IsAsked args given = ground arith

  start-IsNumeric : (args : Args r.F64) → IsGiven args.set_chance → IsNumeric (start_console r args)
  unfolding start_console new_model
  start-IsNumeric args given = (configured-IsAsked args given, tt)

  returned-IsNumeric : (c d : Console r) → IsNumeric c → some c ≡ some d → IsNumeric d
  returned-IsNumeric c d v h = let same : d ≡ c = ground arith in subst IsNumeric (sym same) v

  level-IsAsked :
      (sent : List (Outgoing r.F64)) (level : WireLevelFilter)
      → IsAsked sent
      → IsAsked (sent ++ Outgoing.set_cache_level level ∷ [])
  level-IsAsked [] level v = tt
  level-IsAsked (Outgoing.set_cache_level other ∷ sent) level v = level-IsAsked sent level v
  level-IsAsked (Outgoing.set_cache_chance pct ∷ sent) level v = (v.0, level-IsAsked sent level v.1)

  chance-IsAsked :
      (sent : List (Outgoing r.F64)) (asked : r.F64)
      → is_percent r asked ≡ true
      → IsAsked sent
      → IsAsked (sent ++ Outgoing.set_cache_chance asked ∷ [])
  chance-IsAsked [] asked p v = (p, tt)
  chance-IsAsked (Outgoing.set_cache_level level ∷ sent) asked p v = chance-IsAsked sent asked p v
  chance-IsAsked (Outgoing.set_cache_chance pct ∷ sent) asked p v =
      (v.0, chance-IsAsked sent asked p v.1)

  perform-IsNumeric :
      (e : Effect r.F64) (c : Console r) → IsAskable r e → IsNumeric c → IsNumeric (perform r e c)
  unfolding perform
  perform-IsNumeric (Effect.request_set_level level) c a v = (level-IsAsked c.sent level v.0, v.1)
  perform-IsNumeric (Effect.request_set_chance pct) c a v = (chance-IsAsked c.sent pct a v.0, v.1)
  perform-IsNumeric Effect.none c a v = v
  perform-IsNumeric Effect.quit c a v = v
  perform-IsNumeric Effect.restart c a v = v
  perform-IsNumeric (Effect.run_update_installer version) c a v = v

  enqueue-IsNumeric :
      (room : Bool) (u : Option (Update r.F64)) (c : Console r)
      → IsNumeric c
      → IsNumeric (enqueue r room u c)
  enqueue-IsNumeric room none c v = v
  enqueue-IsNumeric true (some u) c v = v
  enqueue-IsNumeric false (some u) c v = v

  expired-view : (now : ℕ) (m : Model r) → (expire_quit_confirm_if_due r now m).view ≡ m.view
  unfolding expire_quit_confirm_if_due
  expired-view now m = ground arith

  module _ (show_f64 : ℕ → Text) (client : Text) where
    ended-same :
        (room : Bool) (u : Update r.F64) (c : Console r)
        → ((end_installer r show_f64 client room u c).sent ≡ c.sent)
          × ((end_installer r show_f64 client room u c).model ≡ c.model)
    ended-same room u c = ground arith

    ended-IsNumeric :
        (room : Bool) (u : Update r.F64) (c : Console r)
        → IsNumeric c
        → IsNumeric (end_installer r show_f64 client room u c)
    ended-IsNumeric room u c v =
        let same = ended-same room u c in
        (
          subst IsAsked (sym same.0) v.0,
          subst (λ (m : Model r). HasWindow r m.view) (sym same.1) v.1,
        )

    module _ (one_ok : is_window r r.one ≡ true) where
      taken-IsNumeric :
          (now later : ℕ) (queue : List (Update r.F64)) (c d : Console r)
          → IsNumeric c
          → take_update r show_f64 client now later queue c ≡ some d
          → IsNumeric d
      unfolding take_update
      taken-IsNumeric now later [] c d v h = returned-IsNumeric c d v h
      taken-IsNumeric now later (u ∷ queue) c d v h =
          elim (Option-cases (apply r show_f64 client now later u c.model)) [
            | inl panics ↦ absurd (ground (arith, panics))
            | inr ((m, e), done) ↦
                let after = record c { model = m; queue = queue } in
                let kept =
                  apply-HasWindow r show_f64 client now later u c.model m e one_ok v.1 done in
                let same : d ≡ perform r e after = ground (arith, done) in
                subst IsNumeric (sym same) (perform-IsNumeric e after kept.1 (v.0, kept.0))
          ]

      running-IsNumeric :
          (e : Event r) (c d : Console r)
          → IsNumeric c
          → running_step r show_f64 client e c ≡ some d
          → IsNumeric d
      unfolding running_step
      running-IsNumeric (Event.taken now later) c d v h = taken-IsNumeric now later c.queue c d v h
      running-IsNumeric (Event.ticked now) c d v h =
          let sent : d.sent ≡ c.sent = ground arith in
          let view : d.model.view ≡ c.model.view = ground (arith, expired-view now c.model) in
          (subst IsAsked (sym sent) v.0, subst (HasWindow r) (sym view) v.1)
      running-IsNumeric (Event.pressed room k) c d v h =
          let f = c.flags in
          returned-IsNumeric _ d
            (enqueue-IsNumeric room
              (route r.F64 f.modal_kind f.quit_confirm_active f.current_view k) c v)
            h
      running-IsNumeric (Event.received room resp) c d v h =
          returned-IsNumeric _ d (enqueue-IsNumeric room (resp_to_update r resp) c v) h
      running-IsNumeric (Event.connecting room msg) c d v h =
          returned-IsNumeric _ d (enqueue-IsNumeric room (some (Update.status msg)) c v) h
      running-IsNumeric (Event.connected room) c d v h =
          returned-IsNumeric _ d (enqueue-IsNumeric room (some Update.connected) c v) h
      running-IsNumeric (Event.disconnected room reason) c d v h =
          returned-IsNumeric _ d (enqueue-IsNumeric room (some (Update.disconnected reason)) c v) h
      running-IsNumeric (Event.installed room) c d v h =
          returned-IsNumeric _ d (ended-IsNumeric room Update.installer_succeeded c v) h
      running-IsNumeric (Event.install_failed room output) c d v h =
          returned-IsNumeric _ d (ended-IsNumeric room (Update.installer_failed output) c v) h

      -- If 1 is a finite positive number and the argument `--set-chance` is absent or a finite number from
      -- 0 to 100, then in every reachable console each chance that was sent to the server is a finite number
      -- from 0 to 100, and the window of an open graph is finite and positive, whatever is typed.
      pub Reach-IsNumeric :
          {args : Args r.F64} {c : Console r}
          → IsGiven args.set_chance
          → Reach r show_f64 client args c
          → IsNumeric c
      Reach-IsNumeric {args} given here = start-IsNumeric args given
      Reach-IsNumeric given (next {c} {d} reached e h) =
          elim (step-cases r show_f64 client e c d h) [
            | inl same ↦ subst IsNumeric (sym same) (Reach-IsNumeric given reached)
            | inr runs ↦ running-IsNumeric e c d (Reach-IsNumeric given reached) runs
          ]
