-- ===== src/Storage/Calls.antt =====
-- The calls of `ConnectionStorageManager` in src/lib/connection-storage.ts that read or write the two
-- arrays, and what one of them leaves of the store.
use r_shell.Prelude.{Bool, List, Option, String, ℤ}
use r_shell.Storage.Bundle.{Imported, export_connections, import_connections}
use r_shell.Storage.Connections.{
  FieldUpdate, delete_connection, move_connection, save_connection, save_connection_with_id,
  update_connection, update_last_connected,
}
use r_shell.Storage.Folders.{create_folder, delete_folder, move_folder_recursive}
use r_shell.Storage.Guarded.{get_connections, get_folders}
use r_shell.Storage.Order.{ItemType, reorder_item}
use r_shell.Storage.Sessions.{initialize}
use r_shell.Storage.Types.{ConnectionData, Outside, Store}

pub data StorageCall : Type 0 where
  read_connections read_folders export_all start : StorageCall
  create : String → Option String → StorageCall
  remove_folder : String → Bool → StorageCall
  move_folder : String → Option String → StorageCall
  reorder : String → ItemType → Option String → ℤ → StorageCall
  save : ConnectionData → StorageCall
  save_with_id : String → ConnectionData → StorageCall
  update : String → List FieldUpdate → StorageCall
  touch : String → StorageCall
  remove : String → StorageCall
  move_to : String → String → StorageCall
  import_bundle : Option Imported → Bool → StorageCall

unfoldable pub run : Outside → StorageCall → Store → Store
unfolding get_connections get_folders export_connections initialize create_folder delete_folder
    move_folder_recursive reorder_item save_connection save_connection_with_id update_connection
    update_last_connected delete_connection move_connection import_connections
run out read_connections st = (get_connections out.now st).1
run out read_folders st = (get_folders out.now st).1
run out export_all st = (export_connections out.now st).1
run out start st = initialize out st
run out (create name parent) st = (create_folder out name parent st).1
run out (remove_folder path with_subfolders) st = (delete_folder out.now path with_subfolders st).1
run out (move_folder path new_parent) st = (move_folder_recursive out.now path new_parent st).1
run out (reorder id item_type target index) st =
    (reorder_item out.now id item_type target index st).1
run out (save c) st = (save_connection out c st).1
run out (save_with_id id c) st = (save_connection_with_id out id c st).1
run out (update id updates) st = (update_connection out.now id updates st).1
run out (touch id) st = update_last_connected out id st
run out (remove id) st = (delete_connection out.now id st).1
run out (move_to id folder) st = (move_connection out.now id folder st).1
run out (import_bundle bundle merge) st = (import_connections out bundle merge st).1
