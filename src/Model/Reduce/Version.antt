-- ===== src/Model/Reduce/Version.antt =====
-- The arms of `Model::apply` in tracing-console/src/model/core.rs for quitting and for the switch of
-- versions. The client's version is the build's.
use tracing_console.Base.{ℕ, ◌+◌, ◌*◌, Option, none, some, if◌then◌else◌, ltb}
use tracing_console.Base.Text.{Text, text_eq}
use tracing_console.Model.Reals.{Reals}
use tracing_console.Model.Core.{Model, ConfirmStatus, ConfirmVersionSwitch}
use tracing_console.Model.Update.{Effect}

abbrev pub two_seconds : ℕ
two_seconds = 2 * 1000000000

module _ (r : Reals) where
  -- `now` and `later` are the two readings of the clock.
  unfoldable pub quit : ℕ → ℕ → Model r → Model r × Effect r.F64
  quit now later m = elim m.quit_confirm_deadline [
    | none ↦ (record m { quit_confirm_deadline = some (later + two_seconds) }, Effect.none)
    | some deadline ↦
        if ltb now deadline
        then (record m { quit_confirm_deadline = none }, Effect.quit)
        else (record m { quit_confirm_deadline = some (later + two_seconds) }, Effect.none)
  ]

  abbrev pub offered : Text → Option Text → Option ConfirmVersionSwitch
  offered client none = none
  offered client (some version) =
      if text_eq.beq version client
      then none
      else some (record { server_version = version; status = ConfirmStatus.confirming })

  unfoldable pub begin_confirm : Text → Model r → Model r
  begin_confirm client m = elim m.confirm_version_switch [
    | none ↦ record m { confirm_version_switch = offered client m.server_version }
    | some c ↦ m
  ]

  unfoldable pub confirm_yes : Model r → Model r × Effect r.F64
  confirm_yes m = elim m.confirm_version_switch [
    | none ↦ (m, Effect.none)
    | some c ↦ elim c.status [
      | ConfirmStatus.confirming ↦ (
        record m { confirm_version_switch = some (record c { status = ConfirmStatus.running }) },
        Effect.run_update_installer (some c.server_version),
      )
      | ConfirmStatus.restart ↦ (m, Effect.restart)
      | ConfirmStatus.running ↦ (m, Effect.none)
      | ConfirmStatus.failed output ↦ (m, Effect.none)
    ]
  ]

  unfoldable pub confirm_no : Model r → Model r
  confirm_no m = elim m.confirm_version_switch [
    | none ↦ m
    | some c ↦ elim c.status [
      | ConfirmStatus.running ↦ m
      | ConfirmStatus.confirming ↦ record m { confirm_version_switch = none }
      | ConfirmStatus.restart ↦ record m { confirm_version_switch = none }
      | ConfirmStatus.failed output ↦ record m { confirm_version_switch = none }
    ]
  ]

  -- The end of the installer.
  unfoldable pub installer_ended : ConfirmStatus → Model r → Model r
  installer_ended status m = elim m.confirm_version_switch [
    | none ↦ m
    | some c ↦ record m { confirm_version_switch = some (record c { status = status }) }
  ]
