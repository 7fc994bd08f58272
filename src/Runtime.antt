-- ===== src/Runtime.antt =====
-- The TUI mode of tracing-console/src/runtime.rs around the model: the flags that the keyboard thread
-- reads, the loop over the updates, and what the network task makes of responses and requests. The
-- channels are lists; sockets, the terminal and the installer's process are left out.
pub mod Configure
pub mod Keyboard
pub mod Synced
pub mod Keys
pub mod Installers
pub mod Numbers
pub mod Leave
use tracing_console.Base.{
  ℕ, zero, suc, ◌+◌, ◌≡◌, if◌then◌else◌, Bool, true, false, List, [], ◌∷◌, ◌++◌, Option, none, some,
}
use tracing_console.Base.Text.{Text}
use tracing_console.Base.Words.{u64_mod}
use tracing_console.Host.Level.{WireLevelFilter}
use tracing_console.Host.Message.{ControlCodes, RequestBody, Request, ResponseBody, Response}
use tracing_console.Host.Message.Requests.{new_request, set_message_id}
use tracing_console.Model.Reals.{Reals}
use tracing_console.Model.Core.{
  Model, table_view, graph_view, explore_view, trace_detail_view, new_model,
  expire_quit_confirm_if_due,
}
use tracing_console.Model.Graph.State.{GraphState}
use tracing_console.Model.Update.{Update, Effect}
use tracing_console.Model.Reduce.{apply}
use Configure.{Outgoing, Args, auto_configure}
use Keyboard.{KeyCode, Modal, View, route}

abbrev pub is_some {ℓ} : {A : Type ℓ} → Option A → Bool
is_some none = false
is_some (some a) = true

abbrev first_open {ℓ} : {A : Type ℓ} → Option A → Modal → Modal → Modal
first_open none this next = next
first_open (some a) this next = this

pub record Flags : Type 0 where
  pub modal_kind : Modal
  pub current_view : View
  pub quit_confirm_active : Bool

module _ (r : Reals) where
  -- The kind of the open modal: the confirmation goes before the chance, and that before the view's.
  unfoldable pub kind_of : Model r → Modal
  kind_of m = first_open m.confirm_version_switch Modal.confirm_version_switch (
      first_open m.chance_input Modal.chance (elim m.view [
        | table_view ↦ Modal.no_modal
        | graph_view g ↦ first_open g.agg_input Modal.graph_agg (
            first_open g.window_input Modal.graph_window
              (first_open g.lookback_input Modal.graph_lookback Modal.no_modal))
        | explore_view es ↦ first_open es.search_input Modal.explore_search Modal.no_modal
        | trace_detail_view td ↦ Modal.no_modal
      ]))

  unfoldable pub view_tag : Model r → View
  view_tag m = elim m.view [
    | table_view ↦ View.table
    | graph_view g ↦ View.graph
    | explore_view es ↦ View.explore
    | trace_detail_view td ↦ View.trace_detail
  ]

  unfoldable pub flags_of : Model r → Flags
  unfolding kind_of view_tag
  flags_of m = record {
    modal_kind = kind_of m;
    current_view = view_tag m;
    quit_confirm_active = is_some m.quit_confirm_deadline;
  }

  -- `resp_to_update`, and the request of an outgoing message under its id.
  unfoldable pub resp_to_update : Response r.F64 → Option (Update r.F64)
  resp_to_update resp = elim resp.body [
    | ResponseBody.span s ↦ some (Update.span_received s)
    | ResponseBody.cache_level filter ↦ some (Update.cache_level_received filter)
    | ResponseBody.cache_chance pct ↦ some (Update.cache_chance_received pct)
    | ResponseBody.server_info info ↦ some (Update.server_info_received info)
    | _ ↦ none
  ]

  -- The request that an outgoing message becomes; `next_id` is the counter of ids.
  unfoldable pub request_of : ControlCodes → ℕ → Outgoing r.F64 → Request r.F64
  unfolding new_request set_message_id
  request_of codes next_id (Outgoing.set_cache_level filter) =
      set_message_id codes next_id (new_request codes (RequestBody.set_cache_level filter))
  request_of codes next_id (Outgoing.set_cache_chance pct) =
      set_message_id codes next_id (new_request codes (RequestBody.set_cache_chance pct))

  -- What the loop over the updates keeps: `installers` are the installer's tasks that have not ended.
  pub record Console : Type 0 where
    pub model : Model r
    pub flags : Flags
    pub queue : List (Update r.F64)
    pub sent : List (Outgoing r.F64)
    pub installers : ℕ
    pub stopped : Bool
    pub restart_after_teardown : Bool

  unfoldable pub start_console : Args r.F64 → Console
  unfolding new_model auto_configure
  start_console args = record {
    model = new_model r args.history;
    flags = record {
      modal_kind = Modal.no_modal;
      current_view = View.table;
      quit_confirm_active = false;
    };
    queue = [];
    sent = auto_configure args;
    installers = 0;
    stopped = false;
    restart_after_teardown = false;
  }

  -- A full channel drops what is sent.
  abbrev pub enqueue : Bool → Option (Update r.F64) → Console → Console
  enqueue room none c = c
  enqueue room (some u) c = if room then record c { queue = c.queue ++ u ∷ [] } else c

  -- The arms on the effect of an update, and the stores of the flags behind them.
  unfoldable pub perform : Effect r.F64 → Console → Console
  unfolding flags_of
  perform Effect.none c = record c { flags = flags_of c.model }
  perform Effect.quit c = record c { stopped = true }
  perform (Effect.request_set_level level) c = record c {
    sent = c.sent ++ Outgoing.set_cache_level level ∷ [];
    flags = flags_of c.model;
  }
  perform (Effect.request_set_chance pct) c = record c {
    sent = c.sent ++ Outgoing.set_cache_chance pct ∷ [];
    flags = flags_of c.model;
  }
  perform Effect.restart c = record c { stopped = true; restart_after_teardown = true }
  perform (Effect.run_update_installer version) c = record c {
    installers = c.installers + 1;
    flags = flags_of c.model;
  }

  -- A key is pressed; the network task passes a response on, or tells of its connection; the installer
  -- ends; the loop takes an update, at two readings of the clock; the ticker ticks. The flag says whether
  -- the channel has room.
  pub data Event : Type 0 where
    pressed : Bool → KeyCode → Event
    received : Bool → Response r.F64 → Event
    connecting : Bool → Text → Event
    connected : Bool → Event
    disconnected : Bool → Text → Event
    installed : Bool → Event
    install_failed : Bool → Text → Event
    taken : ℕ → ℕ → Event
    ticked : ℕ → Event

  module _ (show_f64 : ℕ → Text) (client : Text) where
    unfoldable pub take_update : ℕ → ℕ → List (Update r.F64) → Console → Option Console
    unfolding perform
    take_update now later [] c = some c
    take_update now later (u ∷ queue) c = elim (apply r show_f64 client now later u c.model) [
      | none ↦ none
      | some (m, effect) ↦ some (perform effect (record c { model = m; queue = queue }))
    ]

    abbrev pub end_installer : Bool → Update r.F64 → Console → Console
    end_installer room u c = elim c.installers [
      | zero ↦ c
      | suc n ↦ enqueue room (some u) (record c { installers = n })
    ]

    -- None is a panic of the loop.
    unfoldable pub running_step : Event → Console → Option Console
    running_step (pressed room k) c = some (
        enqueue room
          (route r.F64 c.flags.modal_kind c.flags.quit_confirm_active c.flags.current_view k) c)
    running_step (received room resp) c = some (enqueue room (resp_to_update resp) c)
    running_step (connecting room msg) c = some (enqueue room (some (Update.status msg)) c)
    running_step (connected room) c = some (enqueue room (some Update.connected) c)
    running_step (disconnected room reason) c =
        some (enqueue room (some (Update.disconnected reason)) c)
    running_step (installed room) c = some (end_installer room Update.installer_succeeded c)
    running_step (install_failed room output) c =
        some (end_installer room (Update.installer_failed output) c)
    running_step (taken now later) c = take_update now later c.queue c
    running_step (ticked now) c =
        let m = expire_quit_confirm_if_due r now c.model in
        some (record c {
          model = m;
          flags = record (c.flags) { quit_confirm_active = is_some m.quit_confirm_deadline };
        })

    unfoldable pub step : Event → Console → Option Console
    unfolding running_step
    step e c = if c.stopped then some c else running_step e c

    pub data Reach (args : Args r.F64) : Console → Type 0 where
      here : Reach args (start_console args)
      next : {c d : Console} → Reach args c → (e : Event) → step e c ≡ some d → Reach args d
