-- ===== src/Lib.antt =====
-- Verification of the front end of R-Shell, a desktop SSH client: the state that its React
-- components share, which lives in pure reducers and small services under src/lib/.
--
-- The parts, and the files that model them:
--
-- - Prelude (with Tests, Lists, Sets, Text, Sort) is what the other files share. Numbers are natural
--   numbers without a bound; `show` is `String(n)`.
-- - Dict is a plain object used as a map, `Record<string, V>`, with the property order that the
--   language fixes. Only own properties are modelled: ids such as `constructor`, which an object
--   literal inherits, are taken for absent.
-- - Terminal is the tabbed terminal area. Terminal/Types is src/lib/terminal-group-types.ts;
--   Terminal/Grid (the grid tree), Terminal/Tabs (the arrays of tabs), Terminal/State (default
--   state, group removal, visibility, unread output) and Terminal/Reducer (a handler for each
--   action, and `terminalGroupReducer`) are src/lib/terminal-group-reducer.ts. Sizes of panes are
--   floating-point numbers: their arithmetic is the parameter `Float`, and nothing is supposed of
--   it. Indices that an action carries are whole numbers. That `removeLeaf` returns the very node
--   that it was given, which the source tests by identity, is the constructor `kept`.
--   Terminal/Store is src/lib/terminal-group-serializer.ts and `initializeState` of
--   src/lib/terminal-group-context.tsx: Terminal/Store/Accept has its validation, on
--   JSON values; that the fields of accepted JSON hold the data that was written is taken for
--   granted, and the JSON of a tab and of a size is an argument. Terminal/Store/Restart is a start behind
--   a save.
--   The proofs are in Terminal/Grid/* (the tree), Terminal/Invariant/* (the invariant of
--   a layout), Terminal/Visible and Terminal/Reach (the layouts that the application comes to).
-- - Json is what `JSON.parse` returns.
-- - Connect is how connections are opened. Connect/Settings and Connect/Request are
--   src/lib/ssh-connect-request.ts and the policy of src/lib/host-key.ts: the stored settings and
--   `JSON.parse` are arguments. Connect/Retry is src/lib/async-retry.ts, over what the function and
--   the test for cancellation answer at each attempt; its loop runs on the number of retries left.
--   Connect/Guard is src/lib/connect-guard.ts, Connect/Restoration is
--   src/lib/restoration-manager.ts, and Connect/Health is src/lib/session-health.ts: calls and
--   timers are events that come in any order, and the answers of the backend are arguments or come with
--   the events.
--   The proofs are in the other modules of Connect.
-- - Storage is the saved connections, src/lib/connection-storage.ts with src/lib/credential-crypto.ts.
--   Storage/Types has the records, Storage/Secrets the sealing and stripping of secrets,
--   Storage/Guarded the reads and writes with the guard of corrupt values, Storage/Backup their copies;
--   Storage/Folders, Storage/Connections, Storage/Order, Storage/Bundle and Storage/Sessions (the start, with
--   the migration of older versions) are the operations, and
--   Storage/Tree the tree that is shown. Storage/Migration is the pass of src/App.tsx that seals stored
--   plaintext. A stored text is kept as what `JSON.parse` makes of it, where `JSON.stringify` makes a text
--   that parses to its argument, and writing never fails for want of room. The time stands still during
--   a call, and new ids, the time and the back end's answers are arguments. Storage/Calls and
--   Storage/Catalog have the runs of calls, and the other modules of Storage the proofs.
-- - Sync is src/lib/sync-types.ts: the comparison of two directories (Sync), with its proofs in
--   Sync/Plan, and the summary of a plan (Sync/Summary). The parser of dates is an argument.
-- - Transfer is the transfer queue. Transfer/Types and Transfer/Reducer are
--   src/lib/transfer-queue-reducer.ts; Transfer/Service and Transfer/Events are
--   src/lib/transfer-queue-service.ts with the progress channel of src/lib/transfer-progress.ts.
--   The clock and the counter of generated ids are arguments. The asynchronous `pump` and
--   `runTransfer` are cut at the `await` of the backend call, and the events of
--   Transfer/Events are what may happen between two such points. What listeners, subscribers and
--   the backend see is a log; listeners that call back into the service are not modelled, nor is
--   the smoothed speed of a transfer, which an event carries.
--   The proofs are in Transfer/Invariant, Transfer/Serial, Transfer/Drain and Transfer/Status.
-- - Shortcuts is src/lib/keyboard-shortcuts.ts and src/lib/shortcut-registry.ts. Shortcuts/Chords
--   parses chords and writes accelerators, Shortcuts/Registry has the commands and their bindings,
--   Shortcuts/Conflicts the conflict analysis, and Shortcuts/Engine the accelerators that the system
--   should know. `trim`, `toLowerCase` and `toUpperCase` act on ASCII; the platform and the focus are
--   arguments. Shortcuts/Saved reads the stored bindings and migrates those of older versions, and
--   Shortcuts/Keydown has the listeners for keys and the calls of `sync`, which are taken to succeed one
--   behind the other. Shortcuts/Labels has the labels. The proofs are in
--   Shortcuts/Clear, Owners, Synced, Legacy and Migrated.
-- - Upload is src/lib/upload-paths.ts: Upload/Paths has the paths, as texts that are cut at slashes,
--   and Upload/Plan the plans. `localeCompare` is an argument, of which nothing is supposed. The
--   proofs are in the other modules of Upload.
--
-- The loops of the modelled code run over arrays and trees, but for three. `show` prints n with n + 1
-- rounds, more than n has digits. The search for a free name of a backup has one round more than there
-- are backups, and the recursions on the tree of folders take their fuel as an argument: both give
-- `none` where it is used up.
--
-- Not modelled: React components, the Rust back end, and the other libraries under
-- src/lib/.
pub mod Connect
pub mod Dict
pub mod Json
pub mod Prelude
pub mod Shortcuts
pub mod Storage
pub mod Sync
pub mod Terminal
pub mod Transfer
pub mod Upload
