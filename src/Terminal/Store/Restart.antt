-- ===== src/Terminal/Store/Restart.antt =====
-- What the application starts with behind a save: `saveState`, `loadState` and `initializeState` of
-- src/lib/terminal-group-serializer.ts and src/lib/terminal-group-context.tsx in a row. The text that is
-- stored is kept as what `JSON.parse` makes of it; it has a version, so that `migrateFromLegacy` keeps it.
use mathlib.Core.Option
use r_shell.Prelude.{Bool, Option, none, some}
use r_shell.Json.{Json}
use r_shell.Terminal.Store.{StoredState, heal, initialize_state, save_state, serialize_data}
use r_shell.Terminal.Store.Accept.{accepted_data}
use r_shell.Terminal.Store.Accepted.{envelope_json}
use r_shell.Terminal.Types.{TerminalGroupState, TerminalTab}

module _ {N : Type 0} (number_json : N → Json) (tab_json : TerminalTab → Json) where
  -- The data that `deserialize` finds in the stored text, where its validation accepts it.
  unfoldable pub accepted_state : TerminalGroupState N → Option (StoredState N)
  unfolding save_state serialize_data accepted_data
  accepted_state s =
      let saved = save_state s in
      elim (accepted_data (envelope_json number_json tab_json saved)) [
        | none ↦ none
        | some found ↦ some (serialize_data saved)
      ]

  -- `loadState` behind `saveState`
  unfoldable pub reloaded_state : TerminalGroupState N → Option (StoredState N)
  unfolding accepted_state heal
  reloaded_state s = Option.map heal (accepted_state s)

  unfoldable pub restart : Bool → TerminalGroupState N → TerminalGroupState N
  unfolding initialize_state reloaded_state
  restart enabled s = initialize_state enabled (reloaded_state s)
