-- ===== src/Runtime/Keyboard/Laws.antt =====
-- What the keys send, in tracing-console/src/runtime.rs: a property of updates holds of what any key sends
-- if it holds of the modals' updates and of those of the view's own keys.
use tracing_console.Base.{
  ℕ, ◌≡◌, inl, inr, refl, Bool, true, false, Bool-cases, List, [], ◌∷◌, Option, none, some, ◌==◌,
  All, arith,
}
use tracing_console.Model.Update.{Update}
use tracing_console.Runtime.Keyboard.{
  KeyCode, Modal, View, or_else, bound, route, modal_key, input_key, confirm_key, open_key,
  view_key, confirm_bindings, shared_bindings,
}

module _ {F64 : Type 0} where
  -- The updates of the modals, and those that every view shares.
  abbrev pub is_shared : Update F64 → Bool
  is_shared (Update.request_cache_level level) = true
  is_shared Update.begin_confirm_version_switch = true
  is_shared Update.quit_confirm_dismiss = true
  is_shared Update.confirm_version_switch_yes = true
  is_shared Update.confirm_version_switch_no = true
  is_shared (Update.chance_input_char c) = true
  is_shared Update.chance_input_backspace = true
  is_shared Update.chance_input_commit = true
  is_shared Update.chance_input_cancel = true
  is_shared (Update.graph_agg_input_char c) = true
  is_shared Update.graph_agg_input_backspace = true
  is_shared Update.graph_agg_input_commit = true
  is_shared Update.graph_agg_input_cancel = true
  is_shared (Update.graph_window_input_char c) = true
  is_shared Update.graph_window_input_backspace = true
  is_shared Update.graph_window_input_commit = true
  is_shared Update.graph_window_input_cancel = true
  is_shared (Update.graph_lookback_input_char c) = true
  is_shared Update.graph_lookback_input_backspace = true
  is_shared Update.graph_lookback_input_commit = true
  is_shared Update.graph_lookback_input_cancel = true
  is_shared (Update.explore_search_char c) = true
  is_shared Update.explore_search_backspace = true
  is_shared Update.explore_search_commit = true
  is_shared Update.explore_search_cancel = true
  is_shared _ = false

  module _ (p : Update F64 → Bool) where
    abbrev pub Holds : Option (Update F64) → Type 0
    Holds none = Unit {0}
    Holds (some u) = p u ≡ true

    pub Holds-some : (o : Option (Update F64)) (u : Update F64) → Holds o → o ≡ some u → p u ≡ true
    Holds-some none u h e = cc
    Holds-some (some x) u h e = ground arith

    pub bound-Holds :
        (bindings : List (ℕ × Update F64)) (c : ℕ)
        → All (λ b. p b.1 ≡ true) bindings
        → Holds (bound F64 bindings c)
    unfolding bound
    bound-Holds [] c h = tt
    bound-Holds (b ∷ bindings) c h = elim (Bool-cases (c == b.0)) [
      | inl e ↦ rw e h.0
      | inr e ↦ rw e (bound-Holds bindings c h.1)
    ]

    input_key-Holds :
        (typed : ℕ → Update F64) (erased commit cancel : Update F64) (k : KeyCode)
        → ((c : ℕ) → p (typed c) ≡ true)
        → (p erased ≡ true) × (p commit ≡ true) × (p cancel ≡ true)
        → Holds (input_key F64 typed erased commit cancel k)
    unfolding input_key
    input_key-Holds typed erased commit cancel (KeyCode.char c) h g = h c
    input_key-Holds typed erased commit cancel KeyCode.backspace h g = g.0
    input_key-Holds typed erased commit cancel KeyCode.enter h g = g.1
    input_key-Holds typed erased commit cancel KeyCode.esc h g = g.2
    input_key-Holds typed erased commit cancel _ h g = tt

    or_else-Holds : (a b : Option (Update F64)) → Holds a → Holds b → Holds (or_else a b)
    or_else-Holds none b h g = g
    or_else-Holds (some u) b h g = h

    module _ (shared : (u : Update F64) → is_shared u ≡ true → p u ≡ true) where
      confirm_key-Holds : (k : KeyCode) → Holds (confirm_key F64 k)
      unfolding confirm_key
      confirm_key-Holds (KeyCode.char c) =
          bound-Holds (confirm_bindings F64) c
            (shared _ refl, (shared _ refl, (shared _ refl, (shared _ refl, tt))))
      confirm_key-Holds KeyCode.esc = shared _ refl
      confirm_key-Holds KeyCode.enter = tt
      confirm_key-Holds _ = tt

      typing-Holds :
          (typed : ℕ → Update F64) (erased commit cancel : Update F64) (k : KeyCode)
          → ((c : ℕ) → is_shared (typed c) ≡ true)
          → (is_shared erased ≡ true) × (is_shared commit ≡ true) × (is_shared cancel ≡ true)
          → Holds (input_key F64 typed erased commit cancel k)
      typing-Holds typed erased commit cancel k h g =
          input_key-Holds typed erased commit cancel k (λ c. shared (typed c) (h c))
            (shared erased g.0, shared commit g.1, shared cancel g.2)

      modal_key-Holds : (modal : Modal) (k : KeyCode) → Holds (modal_key F64 modal k)
      unfolding modal_key
      modal_key-Holds Modal.no_modal k = tt
      modal_key-Holds Modal.confirm_version_switch k = confirm_key-Holds k
      modal_key-Holds Modal.chance k =
          typing-Holds Update.chance_input_char _ _ _ k (λ c. refl) (refl, refl, refl)
      modal_key-Holds Modal.graph_agg k =
          typing-Holds Update.graph_agg_input_char _ _ _ k (λ c. refl) (refl, refl, refl)
      modal_key-Holds Modal.graph_window k =
          typing-Holds Update.graph_window_input_char _ _ _ k (λ c. refl) (refl, refl, refl)
      modal_key-Holds Modal.graph_lookback k =
          typing-Holds Update.graph_lookback_input_char _ _ _ k (λ c. refl) (refl, refl, refl)
      modal_key-Holds Modal.explore_search k =
          typing-Holds Update.explore_search_char _ _ _ k (λ c. refl) (refl, refl, refl)

      module _ (view : View) (own : (k : KeyCode) → Holds (view_key F64 view k)) where
        open_key-Holds : (quitting : Bool) (k : KeyCode) → Holds (open_key F64 quitting view k)
        unfolding open_key
        open_key-Holds quitting (KeyCode.char c) =
            or_else-Holds (bound F64 (shared_bindings F64) c) (view_key F64 view (KeyCode.char c))
              (bound-Holds (shared_bindings F64) c (
                shared _ refl,
                (shared _ refl, (shared _ refl, (shared _ refl, (shared _ refl, tt)))),
              ))
              (own (KeyCode.char c))
        open_key-Holds true KeyCode.esc = shared _ refl
        open_key-Holds false KeyCode.esc = own KeyCode.esc
        open_key-Holds quitting KeyCode.backspace = own KeyCode.backspace
        open_key-Holds quitting KeyCode.enter = own KeyCode.enter
        open_key-Holds quitting KeyCode.tab = own KeyCode.tab
        open_key-Holds quitting KeyCode.back_tab = own KeyCode.back_tab
        open_key-Holds quitting KeyCode.up = own KeyCode.up
        open_key-Holds quitting KeyCode.down = own KeyCode.down
        open_key-Holds quitting KeyCode.left = own KeyCode.left
        open_key-Holds quitting KeyCode.right = own KeyCode.right
        open_key-Holds quitting KeyCode.other = own KeyCode.other

        pub route-Holds :
            (modal : Modal) (quitting : Bool) (k : KeyCode)
            → Holds (route F64 modal quitting view k)
        unfolding route
        route-Holds Modal.no_modal quitting k = open_key-Holds quitting k
        route-Holds Modal.confirm_version_switch quitting k =
            modal_key-Holds Modal.confirm_version_switch k
        route-Holds Modal.chance quitting k = modal_key-Holds Modal.chance k
        route-Holds Modal.graph_agg quitting k = modal_key-Holds Modal.graph_agg k
        route-Holds Modal.graph_window quitting k = modal_key-Holds Modal.graph_window k
        route-Holds Modal.graph_lookback quitting k = modal_key-Holds Modal.graph_lookback k
        route-Holds Modal.explore_search quitting k = modal_key-Holds Modal.explore_search k
