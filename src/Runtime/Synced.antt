-- ===== src/Runtime/Synced.antt =====
-- The flags of tracing-console/src/runtime.rs follow the model, and what a key does to an open explorer.
use tracing_console.Base.{
  ℕ, ◌≡◌, ◌⊎◌, inl, inr, refl, Bool, true, false, Option-cases, List, [], ◌∷◌, Option, none, some,
  arith,
}
use tracing_console.Base.Text.{Text}
use tracing_console.Model.Reals.{Reals}
use tracing_console.Model.Core.{Model, new_model, expire_quit_confirm_if_due}
use tracing_console.Model.Update.{Update, Effect}
use tracing_console.Model.Reduce.{apply}
use tracing_console.Runtime.Configure.{Args}
use tracing_console.Runtime.{
  kind_of, view_tag, flags_of, Console, start_console, Event, enqueue, resp_to_update, perform,
  take_update, running_step, step, Reach, here, next,
}
use tracing_console.Runtime.Keyboard.{route}

module _ (r : Reals) where
  -- The flags are those of the model, unless the loop has ended.
  abbrev pub IsSynced : Console r → Type 0
  IsSynced c = (c.stopped ≡ true) ⊎ (c.flags ≡ flags_of r c.model)

  new-flags :
      (args : Args r.F64) → (start_console r args).flags ≡ flags_of r (new_model r args.history)
  unfolding start_console flags_of new_model kind_of view_tag
  new-flags args = refl

  perform-IsSynced : (e : Effect r.F64) (c : Console r) → IsSynced (perform r e c)
  unfolding perform
  perform-IsSynced Effect.none c = inr refl
  perform-IsSynced Effect.quit c = inl refl
  perform-IsSynced (Effect.request_set_level level) c = inr refl
  perform-IsSynced (Effect.request_set_chance pct) c = inr refl
  perform-IsSynced Effect.restart c = inl refl
  perform-IsSynced (Effect.run_update_installer version) c = inr refl

  pub expired-flags :
      (now : ℕ) (m : Model r)
      → (kind_of r (expire_quit_confirm_if_due r now m) ≡ kind_of r m)
        × (view_tag r (expire_quit_confirm_if_due r now m) ≡ view_tag r m)
  unfolding expire_quit_confirm_if_due kind_of view_tag
  expired-flags now m = ground arith

  enqueue-IsSynced :
      (room : Bool) (u : Option (Update r.F64)) (c : Console r)
      → IsSynced c
      → IsSynced (enqueue r room u c)
  unfolding flags_of
  enqueue-IsSynced room none c v = v
  enqueue-IsSynced true (some u) c v = v
  enqueue-IsSynced false (some u) c v = v

  module _ (show_f64 : ℕ → Text) (client : Text) where
    -- One step of a loop that has not ended.
    pub step-cases :
        (e : Event r) (c d : Console r)
        → step r show_f64 client e c ≡ some d
        → (d ≡ c) ⊎ (running_step r show_f64 client e c ≡ some d)
    unfolding step
    step-cases e c d h = ground arith

    taken-IsSynced :
        (now later : ℕ) (queue : List (Update r.F64)) (c d : Console r)
        → IsSynced c
        → take_update r show_f64 client now later queue c ≡ some d
        → IsSynced d
    unfolding take_update
    taken-IsSynced now later [] c d v h = ground arith
    taken-IsSynced now later (u ∷ queue) c d v h =
        elim (Option-cases (apply r show_f64 client now later u c.model)) [
          | inl panics ↦ absurd (ground (arith, panics))
          | inr ((m, e), done) ↦
              let same : d ≡ perform r e (record c { model = m; queue = queue }) =
                ground (arith, done) in
              rw same (perform-IsSynced e (record c { model = m; queue = queue }))
        ]

    running-IsSynced :
        (e : Event r) (c d : Console r)
        → IsSynced c
        → running_step r show_f64 client e c ≡ some d
        → IsSynced d
    unfolding running_step flags_of
    running-IsSynced (Event.taken now later) c d v h = taken-IsSynced now later c.queue c d v h
    running-IsSynced (Event.ticked now) c d v h = ground (arith, expired-flags now c.model)
    running-IsSynced (Event.pressed room k) c d v h = ground (
      arith,
      enqueue-IsSynced room
          (route r.F64 c.flags.modal_kind c.flags.quit_confirm_active c.flags.current_view k) c v,
    )
    running-IsSynced (Event.received room resp) c d v h =
        ground (arith, enqueue-IsSynced room (resp_to_update r resp) c v)
    running-IsSynced (Event.connecting room msg) c d v h = ground arith
    running-IsSynced (Event.connected room) c d v h = ground arith
    running-IsSynced (Event.disconnected room reason) c d v h = ground arith
    running-IsSynced (Event.installed room) c d v h = ground arith
    running-IsSynced (Event.install_failed room output) c d v h = ground arith

    step-IsSynced :
        (e : Event r) (c d : Console r)
        → IsSynced c
        → step r show_f64 client e c ≡ some d
        → IsSynced d
    step-IsSynced e c d v h = elim (step-cases e c d h) [
      | inl same ↦ rw same v
      | inr runs ↦ running-IsSynced e c d v runs
    ]

    pub Reach-IsSynced :
        {args : Args r.F64} {c : Console r} → Reach r show_f64 client args c → IsSynced c
    unfolding start_console
    Reach-IsSynced {args} here = inr (new-flags args)
    Reach-IsSynced (next {c} {d} reached e h) = step-IsSynced e c d (Reach-IsSynced reached) h
