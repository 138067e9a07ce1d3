-- ===== src/Shortcuts/Keydown.antt =====
-- The key events and the registration calls of src/lib/keyboard-shortcuts.ts. An event brings its key,
-- its modifiers and what its target is; a handler is answered in place of being called.
use mathlib.Core.Option
use r_shell.Prelude.{
  Bool, List, Option, String, false, filter, find, if◌then◌else◌, in_set, is_some, map, none, not,
  or_else, some, true, ◌&&◌, ◌++◌, ◌==◌, ◌||◌,
}
use r_shell.Dict.{Dict, has, keys, lookup}
use r_shell.Shortcuts.Chords.{to_lower}
use r_shell.Shortcuts.Conflicts.{macos_in_window_chords}
use r_shell.Shortcuts.Engine.{KeyboardShortcut, mac_menu_chord}

pub record KeyEvent : Type 0 where
  pub pressed : String
  pub ctrl : Bool
  pub shift : Bool
  pub alt : Bool
  pub meta : Bool
  pub at_editable : Bool
  pub at_terminal : Bool

unfoldable pub same_flag : Bool → Bool → Bool
same_flag true b = b
same_flag false b = not b

-- `flag === undefined || pressed === flag`
unfoldable pub flag_matches : Option Bool → Bool → Bool
unfolding same_flag
flag_matches none pressed = true
flag_matches (some flag) pressed = same_flag pressed flag

-- Control, meta, shift and alt, as `inWindowMatchMods` answers them.
unfoldable pub mods_match : KeyEvent → Bool × (Bool × (Bool × Bool)) → Bool
unfolding same_flag
mods_match event mods =
    same_flag event.ctrl mods.0
    && same_flag event.meta mods.1.0
    && same_flag event.shift mods.1.1.0
    && same_flag event.alt mods.1.1.1

pub data RegistrationCall : Type 0 where
  registers unregisters : String → RegistrationCall

module _ {H : Type 0} where
  unfoldable pub is_mac_in_window_shortcut : Bool → KeyboardShortcut H → Bool
  unfolding mac_menu_chord macos_in_window_chords
  is_mac_in_window_shortcut is_mac s =
      is_mac
      && elim (mac_menu_chord s) [ none ↦ false | some chord ↦ in_set chord macos_in_window_chords ]

  key_matches : KeyEvent → KeyboardShortcut H → Bool
  unfolding to_lower
  key_matches event s = to_lower event.pressed == to_lower s.key

  unfoldable pub in_window_match_mods : KeyboardShortcut H → Bool × (Bool × (Bool × Bool))
  in_window_match_mods s =
      let shift = or_else s.shift_key false in
      let alt = or_else s.alt_key false in
      if or_else s.meta_key false && not (or_else s.ctrl_key false)
      then (true, (false, (shift, alt)))
      else (or_else s.ctrl_key false, (or_else s.meta_key false, (shift, alt)))

  -- A shortcut at which the loop of the listener stops.
  unfoldable pub fires_in_window : Bool → KeyEvent → KeyboardShortcut H → Bool
  unfolding is_mac_in_window_shortcut key_matches mods_match in_window_match_mods
  fires_in_window is_mac event s =
      is_mac_in_window_shortcut is_mac s
      && not (event.at_terminal && or_else s.ignore_in_terminal false)
      && key_matches event s
      && mods_match event (in_window_match_mods s)

  unfoldable pub handle_in_window_key_down : Bool → KeyEvent → List (KeyboardShortcut H) → Option H
  unfolding fires_in_window find
  handle_in_window_key_down is_mac event shortcuts =
      if event.at_editable && not event.at_terminal
      then none
      else Option.map (λ s. s.handler) (find (fires_in_window is_mac event) shortcuts)

  -- The match of the browser's listener.
  unfoldable pub matches_event : Bool → KeyEvent → KeyboardShortcut H → Bool
  unfolding key_matches flag_matches
  matches_event is_mac event s =
      let ctrl_or_cmd = if is_mac then event.meta || event.ctrl else event.ctrl in
      let uses_explicit_meta = or_else s.meta_key false && not (or_else s.ctrl_key false) in
      let ctrl_match =
        flag_matches s.ctrl_key (if uses_explicit_meta then event.ctrl else ctrl_or_cmd) in
      let meta_match =
        if uses_explicit_meta
        then event.meta
        else if is_mac && is_some s.ctrl_key
        then true
        else flag_matches s.meta_key event.meta in
      key_matches event s
      && ctrl_match
      && flag_matches s.shift_key event.shift
      && flag_matches s.alt_key event.alt
      && meta_match

  unfoldable pub handle_key_down : Bool → KeyEvent → List (KeyboardShortcut H) → Option H
  unfolding matches_event find
  handle_key_down is_mac event shortcuts =
      if event.at_editable && not event.at_terminal
      then none
      else elim (find (matches_event is_mac event) shortcuts) [
        | none ↦ none
        | some s ↦
            if or_else s.ignore_in_terminal false && event.at_terminal then none else some s.handler
      ]

  -- `sync`: its calls, and what is then kept as registered.
  unfoldable pub sync :
      Dict (KeyboardShortcut H)
      → Dict (KeyboardShortcut H)
      → List RegistrationCall × Dict (KeyboardShortcut H)
  unfolding filter lookup
  sync desired registered =
      let stale = filter (λ entry. not (has entry.0 desired)) registered in
      let remaining = filter (λ entry. has entry.0 desired) registered in
      let fresh = filter (λ entry. not (has entry.0 remaining)) desired in
      (
        map (λ accel. unregisters accel) (keys stale)
            ++ map (λ accel. registers accel) (keys fresh),
        remaining ++ fresh,
      )
