-- ===== src/Runtime/Installers.antt =====
-- At most one installer runs at a time, in the loop of tracing-console/src/runtime.rs.
use tracing_console.Base.{
  ℕ, suc, ◌+◌, ◌≡◌, ◌⊎◌, inl, inr, refl, sym, Bool, true, false, Option-cases, List, [], ◌∷◌, ◌++◌,
  Option, none, some, if◌then◌else◌, arith,
}
use tracing_console.Base.Text.{Text}
use mathlib.Core.Path.{subst}
use tracing_console.Host.Message.{Response}
use tracing_console.Model.Reals.{Reals}
use tracing_console.Model.Core.{
  Model, ConfirmStatus, ConfirmVersionSwitch, expire_quit_confirm_if_due,
}
use tracing_console.Model.Update.{Update, Effect}
use tracing_console.Model.Reduce.{apply}
use tracing_console.Model.Reduce.Session.{Session, session_of, loud, session_step}
use tracing_console.Model.Reduce.Session.Laws.{apply-Session}
use tracing_console.Runtime.Configure.{Args}
use tracing_console.Runtime.{
  Console, start_console, Event, enqueue, end_installer, resp_to_update, perform, take_update,
  running_step, Reach, here, next,
}
use tracing_console.Runtime.Keyboard.{
  KeyCode, View, route, view_key, graph_key, explore_key, trace_key, table_key, graph_bindings,
  explore_bindings, trace_bindings, table_bindings,
}
use tracing_console.Runtime.Keyboard.Laws.{is_shared, Holds, bound-Holds, route-Holds}
use tracing_console.Runtime.Synced.{step-cases}

module _ (r : Reals) where
  -- An update that is not the report of an installer.
  abbrev is_other : Update r.F64 → Bool
  is_other Update.installer_succeeded = false
  is_other (Update.installer_failed output) = false
  is_other _ = true

  -- The reports in a queue.
  abbrev pub reports : List (Update r.F64) → ℕ
  reports [] = 0
  reports (u ∷ queue) = if is_other u then reports queue else suc (reports queue)

  reports-append :
      (queue : List (Update r.F64)) (u : Update r.F64)
      → reports (queue ++ u ∷ []) ≡ reports queue + (if is_other u then 0 else 1)
  reports-append [] u = ground arith
  reports-append (x ∷ queue) u = ground (arith, reports-append queue u)

  abbrev pub IsRunning : Option ConfirmVersionSwitch → Type 0
  IsRunning none = ⊥
  IsRunning (some c) = c.status ≡ ConfirmStatus.running

  -- The installers that run and the reports that wait: none, or one while the modal says so.
  abbrev pub IsSingle : ℕ → Option ConfirmVersionSwitch → Type 0
  IsSingle n switch = (n ≡ 0) ⊎ ((n ≡ 1) × IsRunning switch)

  abbrev pending : Console r → ℕ
  pending c = c.installers + reports c.queue

  -- What the loop does on an update, when the installers that run are `n` and the rest of the queue has no
  -- report more than that.
  performed : Effect r.F64 → ℕ → ℕ
  performed (Effect.run_update_installer version) n = n + 1
  performed _ n = n

  perform-installers :
      (e : Effect r.F64) (c : Console r)
      → ((perform r e c).installers ≡ performed e c.installers)
        × ((perform r e c).queue ≡ c.queue)
        × ((perform r e c).model ≡ c.model)
  unfolding perform performed
  perform-installers (Effect.run_update_installer version) c = (refl, refl, refl)
  perform-installers _ c = (refl, refl, refl)

  session-IsSingle :
      (client : Text) (now later : ℕ) (u : Update r.F64) (s : Session r) (installers waiting : ℕ)
      → IsSingle (installers + (if is_other u then waiting else suc waiting)) s.switch
      → let next = session_step r client now later u s in
        IsSingle (performed next.1 installers + waiting) next.0.switch
  unfolding session_step performed
  session-IsSingle client now later Update.confirm_version_switch_yes s installers waiting v =
      ground arith
  session-IsSingle client now later (Update.installer_failed output) s installers waiting v =
      ground arith
  session-IsSingle client now later Update.installer_succeeded s installers waiting v = ground arith
  session-IsSingle client now later Update.confirm_version_switch_no s installers waiting v =
      ground arith
  session-IsSingle client now later Update.begin_confirm_version_switch s installers waiting v =
      ground arith
  session-IsSingle client now later Update.quit s installers waiting v = ground arith
  session-IsSingle client now later _ s installers waiting v = v

  performed-loud : (e : Effect r.F64) (n : ℕ) → performed (loud r e) n ≡ performed e n
  unfolding performed
  performed-loud (Effect.run_update_installer version) n = refl
  performed-loud _ n = refl

  abbrev pub OneInstaller : Console r → Type 0
  OneInstaller c = IsSingle (pending c) c.model.confirm_version_switch

  perform-OneInstaller :
      (e : Effect r.F64) (c : Console r)
      → IsSingle (performed e c.installers + reports c.queue) c.model.confirm_version_switch
      → OneInstaller (perform r e c)
  perform-OneInstaller e c v = ground (arith, perform-installers e c)

  -- The updates that keys and responses send are no reports.
  graph_key-Holds : (k : KeyCode) → Holds is_other (graph_key r.F64 k)
  unfolding graph_key
  graph_key-Holds (KeyCode.char c) = bound-Holds is_other (graph_bindings r.F64) c (ground arith)
  graph_key-Holds _ = ground arith

  explore_key-Holds : (k : KeyCode) → Holds is_other (explore_key r.F64 k)
  unfolding explore_key
  explore_key-Holds (KeyCode.char c) =
      bound-Holds is_other (explore_bindings r.F64) c (ground arith)
  explore_key-Holds _ = ground arith

  trace_key-Holds : (k : KeyCode) → Holds is_other (trace_key r.F64 k)
  unfolding trace_key
  trace_key-Holds (KeyCode.char c) = bound-Holds is_other (trace_bindings r.F64) c (ground arith)
  trace_key-Holds _ = ground arith

  table_key-Holds : (k : KeyCode) → Holds is_other (table_key r.F64 k)
  unfolding table_key
  table_key-Holds (KeyCode.char c) = bound-Holds is_other (table_bindings r.F64) c (ground arith)
  table_key-Holds _ = ground arith

  view_key-Holds : (view : View) (k : KeyCode) → Holds is_other (view_key r.F64 view k)
  unfolding view_key
  view_key-Holds View.graph k = graph_key-Holds k
  view_key-Holds View.explore k = explore_key-Holds k
  view_key-Holds View.trace_detail k = trace_key-Holds k
  view_key-Holds View.table k = table_key-Holds k

  shared-other : (u : Update r.F64) → is_shared u ≡ true → is_other u ≡ true
  shared-other Update.installer_succeeded h = absurd (cc)
  shared-other (Update.installer_failed output) h = absurd (cc)
  shared-other _ h = refl

  resp_to_update-Holds : (resp : Response r.F64) → Holds is_other (resp_to_update r resp)
  unfolding resp_to_update
  resp_to_update-Holds resp = ground arith

  enqueue-OneInstaller :
      (room : Bool) (o : Option (Update r.F64)) (c : Console r)
      → Holds is_other o
      → OneInstaller c
      → OneInstaller (enqueue r room o c)
  enqueue-OneInstaller room none c h v = v
  enqueue-OneInstaller false (some u) c h v = v
  enqueue-OneInstaller true (some u) c h v = ground (arith, reports-append c.queue u)

  report-OneInstaller :
      (show_f64 : ℕ → Text) (client : Text) (room : Bool) (u : Update r.F64) (c : Console r)
      → is_other u ≡ false
      → OneInstaller c
      → OneInstaller (end_installer r show_f64 client room u c)
  report-OneInstaller show_f64 client true u c h v = ground (arith, reports-append c.queue u)
  report-OneInstaller show_f64 client false u c h v = ground arith

  expired-switch :
      (now : ℕ) (m : Model r)
      → (expire_quit_confirm_if_due r now m).confirm_version_switch ≡ m.confirm_version_switch
  unfolding expire_quit_confirm_if_due
  expired-switch now m = ground arith

  module _ (show_f64 : ℕ → Text) (client : Text) where
    taken-OneInstaller :
        (now later : ℕ) (queue : List (Update r.F64)) (c d : Console r)
        → IsSingle (c.installers + reports queue) c.model.confirm_version_switch
        → c.queue ≡ queue
        → take_update r show_f64 client now later queue c ≡ some d
        → OneInstaller d
    unfolding take_update
    taken-OneInstaller now later [] c d v same h = ground arith
    taken-OneInstaller now later (u ∷ queue) c d v same h =
        elim (Option-cases (apply r show_f64 client now later u c.model)) [
          | inl panics ↦ absurd (ground (arith, panics))
          | inr ((m, e), done) ↦
              let simulated = apply-Session r show_f64 client now later u c.model m e done in
              let stepped =
                session-IsSingle client now later u (session_of r c.model) c.installers
                  (reports queue) v in
              let loudly : IsSingle (performed (loud r e) c.installers + reports queue)
                  m.confirm_version_switch =
                subst (λ p. IsSingle (performed p.1 c.installers + reports queue) p.0.switch)
                  (sym simulated) stepped in
              let single : IsSingle (performed e c.installers + reports queue)
                  m.confirm_version_switch =
                rw (← performed-loud e c.installers) loudly in
              let after = record c { model = m; queue = queue } in
              let same_console : d ≡ perform r e after = ground (arith, done) in
              subst OneInstaller (sym same_console) (perform-OneInstaller e after single)
        ]

    running-OneInstaller :
        (e : Event r) (c d : Console r)
        → OneInstaller c
        → running_step r show_f64 client e c ≡ some d
        → OneInstaller d
    unfolding running_step
    running-OneInstaller (Event.taken now later) c d v h =
        taken-OneInstaller now later c.queue c d v refl h
    running-OneInstaller (Event.ticked now) c d v h = ground (arith, expired-switch now c.model)
    running-OneInstaller (Event.pressed room k) c d v h =
        let f = c.flags in
        ground (
          arith,
          enqueue-OneInstaller room
              (route r.F64 f.modal_kind f.quit_confirm_active f.current_view k) c
              (route-Holds is_other shared-other f.current_view (view_key-Holds f.current_view)
                f.modal_kind f.quit_confirm_active k)
              v,
        )
    running-OneInstaller (Event.received room resp) c d v h =
        ground
          (arith, enqueue-OneInstaller room (resp_to_update r resp) c (resp_to_update-Holds resp) v)
    running-OneInstaller (Event.connecting room msg) c d v h =
        ground (arith, enqueue-OneInstaller room (some (Update.status msg)) c refl v)
    running-OneInstaller (Event.connected room) c d v h =
        ground (arith, enqueue-OneInstaller room (some Update.connected) c refl v)
    running-OneInstaller (Event.disconnected room reason) c d v h =
        ground (arith, enqueue-OneInstaller room (some (Update.disconnected reason)) c refl v)
    running-OneInstaller (Event.installed room) c d v h =
        ground (arith, report-OneInstaller show_f64 client room Update.installer_succeeded c refl v)
    running-OneInstaller (Event.install_failed room output) c d v h =
        ground (
          arith,
          report-OneInstaller show_f64 client room (Update.installer_failed output) c refl v,
        )

    -- In every reachable console, whatever is typed and whatever the server sends, the installers that run
    -- and the reports of installers that wait in the queue are together at most one, and while there is one
    -- the modal of the version switch is open and says that it runs.
    pub Reach-OneInstaller :
        {args : Args r.F64} {c : Console r} → Reach r show_f64 client args c → OneInstaller c
    unfolding start_console
    Reach-OneInstaller here = inl refl
    Reach-OneInstaller (next {c} {d} reached e h) = elim (step-cases r show_f64 client e c d h) [
      | inl same ↦ subst OneInstaller (sym same) (Reach-OneInstaller reached)
      | inr runs ↦ running-OneInstaller e c d (Reach-OneInstaller reached) runs
    ]
