-- ===== src/Shortcuts/Engine.antt =====
-- The registration of src/lib/keyboard-shortcuts.ts: which accelerators the system should know in a
-- state of focus. The platform and what has focus are arguments; a `Map` lists its entries in the
-- order in which they were set.
use r_shell.Prelude.{
  Bool, List, Option, String, [], false, filter, if◌then◌else◌, in_set, is_some, none, not, or_else,
  some, ◌&&◌, ◌++◌, ◌==◌, ◌||◌, ◌∷◌,
}
use r_shell.Dict.{Dict, lookup}
use r_shell.Shortcuts.Chords.{join_plus, to_accelerator_from_parsed, to_accelerator_key, when}
use r_shell.Shortcuts.Conflicts.{macos_in_window_chords, macos_menu_owned_accelerators}

pub record KeyboardShortcut (H : Type 0) : Type 0 where
  pub key : String
  pub ctrl_key : Option Bool
  pub shift_key : Option Bool
  pub alt_key : Option Bool
  pub meta_key : Option Bool
  pub ignore_in_terminal : Option Bool
  pub global_in_background : Option Bool
  pub handler : H
  pub description : String

pub data FocusContext : Type 0 where
  on_app on_terminal on_editable : FocusContext

-- `appFocused`, `siblingWindowFocused` and `currentFocusContext()`
pub record Focus : Type 0 where
  pub app_focused : Bool
  pub sibling_window_focused : Bool
  pub context : FocusContext

module _ {H : Type 0} where
  unfoldable pub accelerator_for_shortcut : KeyboardShortcut H → Option String
  unfolding to_accelerator_from_parsed
  accelerator_for_shortcut s = to_accelerator_from_parsed (record {
    key = s.key;
    ctrl_key = or_else s.ctrl_key false;
    shift_key = or_else s.shift_key false;
    alt_key = or_else s.alt_key false;
    meta_key = or_else s.meta_key false;
  })

  unfoldable pub mac_menu_chord : KeyboardShortcut H → Option String
  unfolding when join_plus to_accelerator_key
  mac_menu_chord s =
      if not (or_else s.ctrl_key false) && not (or_else s.meta_key false)
      then none
      else some (
          join_plus (
            "CommandOrControl"
            ∷ when (or_else s.shift_key false) "Shift"
                (when (or_else s.alt_key false) "Option" (to_accelerator_key s.key ∷ []))))

  -- The guard for the chords of the menu, on a Mac.
  unfoldable pub is_left_to_menu : String → KeyboardShortcut H → Bool
  unfolding mac_menu_chord macos_menu_owned_accelerators macos_in_window_chords
  is_left_to_menu accel s = accel == "F5" || elim (mac_menu_chord s) [
    | none ↦ false
    | some menu_chord ↦
        in_set menu_chord macos_menu_owned_accelerators || in_set menu_chord macos_in_window_chords
  ]

  -- One shortcut, with its accelerator.
  unfoldable pub set_accelerator :
      Bool
      → KeyboardShortcut H
      → Option String
      → Dict (KeyboardShortcut H)
      → Dict (KeyboardShortcut H)
  unfolding is_left_to_menu lookup
  set_accelerator is_mac s none by_accelerator = by_accelerator
  set_accelerator is_mac s (some accel) by_accelerator =
      if is_mac && is_left_to_menu accel s
      then by_accelerator
      else if is_some (lookup accel by_accelerator)
      then by_accelerator
      else by_accelerator ++ ((accel, s) ∷ [])

  unfoldable pub set_accelerators :
      Bool → List (KeyboardShortcut H) → Dict (KeyboardShortcut H) → Dict (KeyboardShortcut H)
  unfolding set_accelerator accelerator_for_shortcut
  set_accelerators is_mac [] by_accelerator = by_accelerator
  set_accelerators is_mac (s ∷ ss) by_accelerator =
      set_accelerators is_mac ss
        (set_accelerator is_mac s (accelerator_for_shortcut s) by_accelerator)

  unfoldable pub desired_accelerators :
      Bool → Focus → List (KeyboardShortcut H) → Dict (KeyboardShortcut H)
  unfolding set_accelerators filter
  desired_accelerators is_mac focus shortcuts =
      let by_accelerator = set_accelerators is_mac shortcuts [] in
      if not focus.app_focused && focus.sibling_window_focused
      then []
      else if not focus.app_focused
      then filter (λ entry. or_else entry.1.global_in_background false) by_accelerator
      else elim focus.context [
        | on_editable ↦ []
        | on_terminal ↦
            filter (λ entry. not (or_else entry.1.ignore_in_terminal false)) by_accelerator
        | on_app ↦ by_accelerator
      ]
