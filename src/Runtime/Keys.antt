-- ===== src/Runtime/Keys.antt =====
-- What a key does to an open explorer, from the press in the keyboard thread of
-- tracing-console/src/runtime.rs to the message to the server.
use tracing_console.Base.{
  ℕ, ◌≡◌, inl, inr, refl, sym, ap, ◌∙◌, Bool, true, false, Option-cases, List, [], ◌∷◌, ◌++◌,
  Option, none, some, arith,
}
use tracing_console.Base.Text.{Text}
use mathlib.Core.Path.{subst}
use tracing_console.Model.Reals.{Reals}
use tracing_console.Model.Explore.{ExploreState}
use tracing_console.Model.Core.{
  Model, ViewMode, table_view, graph_view, explore_view, trace_detail_view,
}
use tracing_console.Model.Update.{Update, Effect}
use tracing_console.Model.Reduce.{apply}
use tracing_console.Model.Reduce.Explore.{restored_level}
use tracing_console.Model.Reduce.Restore.{explorer_of, is_abrupt, Restores, apply-Restores}
use tracing_console.Runtime.Configure.{Outgoing, Args}
use tracing_console.Runtime.{
  Flags, kind_of, view_tag, flags_of, Console, Event, enqueue, perform, take_update, running_step,
  step, Reach,
}
use tracing_console.Runtime.Keyboard.{
  KeyCode, View, route, view_key, explore_key, trace_key, explore_bindings, trace_bindings,
}
use tracing_console.Runtime.Keyboard.Laws.{is_shared, Holds, Holds-some, bound-Holds, route-Holds}
use tracing_console.Runtime.Synced.{IsSynced, Reach-IsSynced}

module _ (r : Reals) where
  -- The updates that the keys of the explorer and of its modals send.
  abbrev is_calm : View → Update r.F64 → Bool
  is_calm view Update.toggle_graph = false
  is_calm View.trace_detail Update.exit_trace_detail = true
  is_calm View.explore Update.exit_trace_detail = false
  is_calm View.graph Update.exit_trace_detail = false
  is_calm View.table Update.exit_trace_detail = false
  is_calm view _ = true

  explore_key-Holds : (k : KeyCode) → Holds (is_calm View.explore) (explore_key r.F64 k)
  unfolding explore_key
  explore_key-Holds (KeyCode.char c) =
      bound-Holds (is_calm View.explore) (explore_bindings r.F64) c (ground arith)
  explore_key-Holds _ = ground arith

  trace_key-Holds : (k : KeyCode) → Holds (is_calm View.trace_detail) (trace_key r.F64 k)
  unfolding trace_key
  trace_key-Holds (KeyCode.char c) =
      bound-Holds (is_calm View.trace_detail) (trace_bindings r.F64) c (ground arith)
  trace_key-Holds _ = ground arith

  shared-calm : (view : View) (u : Update r.F64) → is_shared u ≡ true → is_calm view u ≡ true
  shared-calm view Update.toggle_graph h = absurd (cc)
  shared-calm view Update.exit_trace_detail h = absurd (cc)
  shared-calm view _ h = refl

  -- A key that is read by the flags of an open explorer sends nothing abrupt.
  calm-not_abrupt :
      (v : ViewMode r) (es : ExploreState) (view : View) (u : Update r.F64)
      → explorer_of r v ≡ some es
      → (m : Model r) → m.view ≡ v
      → view ≡ view_tag r m
      → is_calm view u ≡ true
      → is_abrupt r u v ≡ false
  unfolding view_tag
  calm-not_abrupt v es view Update.toggle_graph h m same tag calm = cc
  calm-not_abrupt v es view Update.exit_trace_detail h m same tag calm = ground arith
  calm-not_abrupt v es view _ h m same tag calm = refl

  -- What has come of an explorer in the state `es`: it has the same stack and the same level to restore,
  -- or it is closed and the server was asked for that level.
  abbrev pub Restored :
      ExploreState → List (Outgoing r.F64) → List (Outgoing r.F64) → Option ExploreState → Type 0
  Restored es before after (some es') =
      (es'.locked_stack ≡ es.locked_stack) × (es'.restore_level ≡ es.restore_level)
  Restored es before after none =
      after ≡ before ++ Outgoing.set_cache_level (restored_level es) ∷ []

  performed-Restored :
      (u : Update r.F64) (es : ExploreState) (v : ViewMode r) (e : Effect r.F64) (c : Console r)
      → Restores r u es v e (explorer_of r c.model.view)
      → is_abrupt r u v ≡ false
      → Restored es c.sent (perform r e c).sent (explorer_of r (perform r e c).model.view)
  unfolding perform
  performed-Restored u es v e c h calm = ground arith

  view_key-Holds :
      (v : ViewMode r) (es : ExploreState) (m : Model r) (k : KeyCode)
      → explorer_of r v ≡ some es
      → m.view ≡ v
      → Holds (is_calm (view_tag r m)) (view_key r.F64 (view_tag r m) k)
  unfolding view_tag view_key
  view_key-Holds table_view es m k h same = absurd (cc)
  view_key-Holds (graph_view g) es m k h same = absurd (cc)
  view_key-Holds (explore_view es') es m k h same = rw same (explore_key-Holds k)
  view_key-Holds (trace_detail_view td) es m k h same = rw same (trace_key-Holds k)

  -- What the keyboard thread makes of a key by these flags.
  abbrev sent_by : Flags → KeyCode → Option (Update r.F64)
  sent_by f k = route r.F64 f.modal_kind f.quit_confirm_active f.current_view k

  route-calm :
      (m : Model r) (es : ExploreState) (k : KeyCode) (u : Update r.F64)
      → explorer_of r m.view ≡ some es
      → sent_by (flags_of r m) k ≡ some u
      → is_abrupt r u m.view ≡ false
  unfolding flags_of
  route-calm m es k u h sends = calm-not_abrupt m.view es (view_tag r m) u h m refl refl (
      Holds-some (is_calm (view_tag r m)) _ u
        (route-Holds (is_calm (view_tag r m)) (shared-calm (view_tag r m)) (view_tag r m)
          (λ key. view_key-Holds m.view es m key h refl) (kind_of r m) _ k)
        sends)

  module _ (show_f64 : ℕ → Text) (client : Text) where
    taken-Restored :
        (now later : ℕ) (u : Update r.F64) (es : ExploreState) (c f : Console r)
        → explorer_of r c.model.view ≡ some es
        → is_abrupt r u c.model.view ≡ false
        → take_update r show_f64 client now later (u ∷ []) c ≡ some f
        → Restored es c.sent f.sent (explorer_of r f.model.view)
    unfolding take_update
    taken-Restored now later u es c f h calm taken =
        elim (Option-cases (apply r show_f64 client now later u c.model)) [
          | inl panics ↦ absurd (ground (arith, panics))
          | inr ((m, e), done) ↦
              let same : f ≡ perform r e (record c { model = m; queue = [] }) =
                ground (arith, done) in
              rw same (
                performed-Restored u es c.model.view e (record c { model = m; queue = [] })
                  (apply-Restores r show_f64 client now later u c.model m e es h done) calm)
        ]

    pressed-queue :
        (room : Bool) (k : KeyCode) (c d : Console r)
        → c.stopped ≡ false
        → step r show_f64 client (Event.pressed room k) c ≡ some d
        → d ≡ enqueue r room (sent_by c.flags k) c
    unfolding step running_step
    pressed-queue room k c d runs h = ground (arith, runs)

    taken-queue :
        (now later : ℕ) (d f : Console r)
        → d.stopped ≡ false
        → step r show_f64 client (Event.taken now later) d ≡ some f
        → take_update r show_f64 client now later d.queue d ≡ some f
    unfolding step running_step
    taken-queue now later d f runs h = ground (arith, runs)

    enqueue-stopped :
        (room : Bool) (o : Option (Update r.F64)) (c : Console r)
        → (enqueue r room o c).stopped ≡ c.stopped
    enqueue-stopped room none c = refl
    enqueue-stopped true (some u) c = refl
    enqueue-stopped false (some u) c = refl

    calm_key :
        (c : Console r) (es : ExploreState) (k : KeyCode) (u : Update r.F64)
        → IsSynced r c
        → c.stopped ≡ false
        → explorer_of r c.model.view ≡ some es
        → sent_by c.flags k ≡ some u
        → is_abrupt r u c.model.view ≡ false
    calm_key c es k u (inl over) runs h sends = cc
    calm_key c es k u (inr synced) runs h sends =
        route-calm c.model es k u h (ap (λ g. sent_by g k) (sym synced) ∙ sends)

    -- The loop takes what a key has sent, if the queue was empty before.
    enqueued-Restored :
        (room : Bool) (now later : ℕ) (o : Option (Update r.F64)) (es : ExploreState)
        (c f : Console r)
        → c.queue ≡ []
        → explorer_of r c.model.view ≡ some es
        → ((u : Update r.F64) → o ≡ some u → is_abrupt r u c.model.view ≡ false)
        → take_update r show_f64 client now later (enqueue r room o c).queue (enqueue r room o c)
          ≡ some f
        → Restored es c.sent f.sent (explorer_of r f.model.view)
    unfolding take_update
    enqueued-Restored room now later none es c f idle h calm taken = ground arith
    enqueued-Restored false now later (some u) es c f idle h calm taken = ground arith
    enqueued-Restored true now later (some u) es c f idle h calm taken =
        taken-Restored now later u es (record c { queue = u ∷ [] }) f h (calm u refl)
          (subst
            (λ q.
              take_update r show_f64 client now later (q ++ u ∷ [])
                (record c { queue = q ++ u ∷ [] })
              ≡ some f)
            idle taken)

    -- In a reachable console that runs, has no update waiting and shows an explorer or a trace of it, let a
    -- key be pressed and the loop take what it sent, if it sent anything. The explorer is then open on the
    -- same stack with the same level to restore, or it is closed and the console has sent exactly one more
    -- message, that asks for that level.
    pub press_restores :
        {args : Args r.F64} (c d f : Console r) (es : ExploreState) (k : KeyCode) (room : Bool)
        (now later : ℕ)
        → Reach r show_f64 client args c
        → c.stopped ≡ false
        → c.queue ≡ []
        → explorer_of r c.model.view ≡ some es
        → step r show_f64 client (Event.pressed room k) c ≡ some d
        → step r show_f64 client (Event.taken now later) d ≡ some f
        → Restored es c.sent f.sent (explorer_of r f.model.view)
    press_restores c d f es k room now later reached runs idle h pressed taken =
        let queued = pressed-queue room k c d runs pressed in
        let still_runs =
          ap (λ x. x.stopped) queued ∙ enqueue-stopped room (sent_by c.flags k) c ∙ runs in
        enqueued-Restored room now later (sent_by c.flags k) es c f idle h
          (λ u sends. calm_key c es k u (Reach-IsSynced r show_f64 client reached) runs h sends)
          (subst (λ x. take_update r show_f64 client now later x.queue x ≡ some f) queued
            (taken-queue now later d f still_runs taken))
