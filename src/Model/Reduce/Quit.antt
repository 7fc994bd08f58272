-- ===== src/Model/Reduce/Quit.antt =====
-- Quitting takes two presses, in tracing-console/src/model/core.rs: runs of the reducer and of the ticker's
-- `expire_quit_confirm_if_due`.
use tracing_console.Base.{
  ℕ, ◌+◌, ◌<◌, ◌≡◌, ◌⊎◌, inl, inr, refl, ap, ◌∙◌, sym, Bool, true, false, Option-cases, List, [],
  ◌∷◌, Option, none, some, arith, All,
}
use tracing_console.Base.Text.{Text}
use tracing_console.Model.Reals.{Reals}
use tracing_console.Model.Core.{Model, new_model, expire_quit_confirm_if_due}
use tracing_console.Model.Update.{Update, Effect}
use tracing_console.Model.Reduce.{apply}
use tracing_console.Model.Reduce.Version.{two_seconds}
use tracing_console.Model.Reduce.Session.{Session, session_of, session_step}
use tracing_console.Model.Reduce.Session.Laws.{apply-Session}

module _ (r : Reals) where
  -- An update, at two readings of the clock, or a tick.
  pub data Moment : Type 0 where
    updated : ℕ → ℕ → Update r.F64 → Moment
    ticked : ℕ → Moment

  -- An update that the prompt does not notice.
  abbrev pub is_aside : Update r.F64 → Bool
  is_aside Update.quit = false
  is_aside Update.quit_confirm_dismiss = false
  is_aside _ = true

  abbrev pub IsAside : Moment → Type 0
  IsAside (updated now later u) = is_aside u ≡ true
  IsAside (ticked now) = Unit {0}

  -- A press of quit at the time `at`, and none nor a dismissal behind it.
  abbrev pub PressedAt : ℕ → List Moment → Type 0
  PressedAt at [] = ⊥
  PressedAt at (updated now later u ∷ run) =
      ((u ≡ Update.quit) × (later ≡ at) × All IsAside run) ⊎ PressedAt at run
  PressedAt at (ticked now ∷ run) = PressedAt at run

  abbrev model_of : Option (Model r × Effect r.F64) → Option (Model r)
  model_of none = none
  model_of (some (m, e)) = some m

  module _ (show_f64 : ℕ → Text) (client : Text) where
    unfoldable pub moment : Moment → Model r → Option (Model r)
    unfolding apply expire_quit_confirm_if_due
    moment (updated now later u) m = model_of (apply r show_f64 client now later u m)
    moment (ticked now) m = some (expire_quit_confirm_if_due r now m)

    unfoldable pub moments : List Moment → Model r → Option (Model r)
    unfolding moment
    moments [] m = some m
    moments (x ∷ run) m = elim (moment x m) [ none ↦ none | some m' ↦ moments run m' ]

    step-deadline :
        (now later : ℕ) (u : Update r.F64) (s : Session r) (d : ℕ)
        → (session_step r client now later u s).0.deadline ≡ some d
        → ((is_aside u ≡ true) × (s.deadline ≡ some d))
          ⊎ ((u ≡ Update.quit) × (d ≡ later + two_seconds))
    unfolding session_step
    step-deadline now later Update.quit s d h = ground arith
    step-deadline now later Update.quit_confirm_dismiss s d h = ground arith
    step-deadline now later Update.confirm_version_switch_yes s d h = ground arith
    step-deadline now later _ s d h = inl (refl, h)

    updated-deadline :
        (now later : ℕ) (u : Update r.F64) (m m' : Model r) (e : Effect r.F64) (d : ℕ)
        → apply r show_f64 client now later u m ≡ some (m', e)
        → m'.quit_confirm_deadline ≡ some d
        → ((is_aside u ≡ true) × (m.quit_confirm_deadline ≡ some d))
          ⊎ ((u ≡ Update.quit) × (d ≡ later + two_seconds))
    updated-deadline now later u m m' e d h g =
        let same = apply-Session r show_f64 client now later u m m' e h in
        step-deadline now later u (session_of r m) d (sym (ap (λ s. s.0.deadline) same) ∙ g)

    expired-deadline :
        (now : ℕ) (m : Model r) (d : ℕ)
        → (expire_quit_confirm_if_due r now m).quit_confirm_deadline ≡ some d
        → m.quit_confirm_deadline ≡ some d
    unfolding expire_quit_confirm_if_due
    expired-deadline now m d h = ground arith

    -- Where the deadline behind a run comes from: the state before, or a press.
    abbrev pub IsSource : ℕ → List Moment → Model r → Type 0
    IsSource d run m =
        (All IsAside run × (m.quit_confirm_deadline ≡ some d))
        ⊎ ((at : ℕ) × PressedAt at run × (d ≡ at + two_seconds))

    updated-IsSource :
        (now later : ℕ) (u : Update r.F64) (run : List Moment) (m m' : Model r) (e : Effect r.F64)
        (d : ℕ)
        → apply r show_f64 client now later u m ≡ some (m', e)
        → IsSource d run m'
        → IsSource d (updated now later u ∷ run) m
    updated-IsSource now later u run m m' e d h (inr (at, pressed, g)) = inr (at, inr pressed, g)
    updated-IsSource now later u run m m' e d h (inl (aside, g)) =
        elim (updated-deadline now later u m m' e d h g) [
          | inl (quiet, before) ↦ inl ((quiet, aside), before)
          | inr (quits, same) ↦ inr (later, inl (quits, refl, aside), same)
        ]

    moments-IsSource :
        (run : List Moment) (m m' : Model r) (d : ℕ)
        → moments run m ≡ some m'
        → m'.quit_confirm_deadline ≡ some d
        → IsSource d run m
    unfolding moments
    moments-IsSource [] m m' d h g = inl (tt, ground arith)
    moments-IsSource (updated now later u ∷ run) m m' d h g =
        elim (Option-cases (apply r show_f64 client now later u m)) [
          | inl panics ↦ absurd (ground (arith, panics))
          | inr ((m1, e), done) ↦
              updated-IsSource now later u run m m1 e d done
                (moments-IsSource run m1 m' d (ground (arith, done)) g)
        ]
    moments-IsSource (ticked now ∷ run) m m' d h g =
        elim (moments-IsSource run (expire_quit_confirm_if_due r now m) m' d h g) [
          | inl (aside, before) ↦ inl ((tt, aside), expired-deadline now m d before)
          | inr pressed ↦ inr pressed
        ]

    step-quit :
        (now later : ℕ) (u : Update r.F64) (s : Session r)
        → (session_step r client now later u s).1 ≡ Effect.quit
        → (u ≡ Update.quit) × (d : ℕ) × (s.deadline ≡ some d) × (now < d)
    unfolding session_step
    step-quit now later Update.quit s h = elim (Option-cases s.deadline) [
      | inl none_set ↦ absurd (ground arith)
      | inr (d, set) ↦ (refl, d, set, ground arith)
    ]
    step-quit now later Update.confirm_version_switch_yes s h = absurd (ground arith)
    step-quit now later _ s h = absurd (cc)

    -- When the reducer answers an update with the effect Quit, after any run of updates and ticks from a
    -- new model, the update is a press of quit, and the run has an earlier press of quit, less than two seconds before, with no press of
    -- quit and no dismissal between the two.
    pub quit_is_confirmed :
        (history_budget : ℕ) (run : List Moment) (m m' : Model r) (now later : ℕ) (u : Update r.F64)
        → moments run (new_model r history_budget) ≡ some m
        → apply r show_f64 client now later u m ≡ some (m', Effect.quit)
        → (u ≡ Update.quit) × (at : ℕ) × PressedAt at run × (now < at + two_seconds)
    unfolding new_model
    quit_is_confirmed history_budget run m m' now later u reached h =
        let same = apply-Session r show_f64 client now later u m m' Effect.quit h in
        let (quits, d, set, early) =
          step-quit now later u (session_of r m) (sym (ap (λ s. s.1) same)) in
        elim (moments-IsSource run (new_model r history_budget) m d reached set) [
          | inl (aside, before) ↦ absurd (cc)
          | inr (at, pressed, g) ↦ (quits, at, pressed, omega arith)
        ]
