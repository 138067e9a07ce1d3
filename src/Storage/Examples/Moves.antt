-- ===== src/Storage/Examples/Moves.antt =====
-- Folders of src/lib/connection-storage.ts that move, the tree, and the catalog.
use r_shell.Prelude.{
  List, Memᴰ, String, [], ap, arith, concat, false, filter, find, is_some, map, none, refl, some,
  some_inj, starts_with, subst, sym, text_length, text_length-concat, true, ◌+◌, ◌↔◌, ◌∷◌, ◌≡◌, ◌≤◌,
}
use r_shell.Storage.Depth.{AreDeeper, IsDeeper, longest, recursions_end}
use r_shell.Storage.Examples.{empty_store, folder_at, no_secrets, saved_host, top_folder}
use r_shell.Storage.Folders.{
  child_path, children_of, find_folder, is_in, is_somewhere_under, is_under, move_folder_recursive,
  moved_connection, moved_folder, moves_into_itself, same_parent,
}
use r_shell.Storage.Move.{IsBelowParent, is_outside_at, move_folder_recursive-members, with_arrays}
use r_shell.Storage.Moved.{is_outside}
use r_shell.Storage.Reached.{IsBelow, valid_folders-IsBelow}
use r_shell.Storage.Secrets.{strip_unencrypted_secrets}
use r_shell.Storage.Tree.{build_folder_tree, collect_valid_paths, gather, valid_folders}
use r_shell.Storage.Types.{ConnectionData, ConnectionFolder, entries}

abbrev work : ConnectionFolder
work = folder_at "f1" "All Connections" "Work"

abbrev servers : ConnectionFolder
servers = folder_at "f2" "All Connections/Work" "Servers"

abbrev personal : ConnectionFolder
personal = folder_at "f3" "All Connections" "Personal"

abbrev three_folders : List ConnectionFolder
three_folders = top_folder ∷ work ∷ servers ∷ personal ∷ []

abbrev web : ConnectionData
web = saved_host "web" "All Connections/Work/Servers" no_secrets

work-found : find_folder "All Connections/Work" three_folders ≡ some work
unfolding find_folder find
work-found = refl

servers-IsBelowParent : IsBelowParent servers
servers-IsBelowParent = record { path = λ q e. ap (λ x. concat x "/Servers") (some_inj e) }

stays_out : moves_into_itself "All Connections/Work" (some "All Connections/Personal") ≡ false
unfolding moves_into_itself is_in is_somewhere_under is_under starts_with
stays_out = refl

is_new :
    is_outside (child_path (some "All Connections/Personal") work.name) "All Connections/Work"
    ≡ true
unfolding child_path is_outside is_under starts_with
is_new = refl

is_new_for_servers :
    is_outside_at (child_path (some "All Connections/Personal") work.name) servers.parent_path
    ≡ true
unfolding is_outside_at
is_new_for_servers = is_new

is_new_for_web :
    is_outside_at (child_path (some "All Connections/Personal") work.name) web.folder ≡ true
unfolding is_outside_at child_path is_outside is_under starts_with
is_new_for_web = refl

goes_elsewhere : same_parent work.parent_path (some "All Connections/Personal") ≡ false
unfolding same_parent
goes_elsewhere = refl

move_folder_recursive-members_example :
    let n = child_path (some "All Connections/Personal") work.name in
    let moved = moved_folder "All Connections/Work" (some "All Connections/Personal") n in
    let result =
      move_folder_recursive 1 "All Connections/Work"
        (some "All Connections/Personal")
        (with_arrays three_folders (web ∷ []) empty_store) in
    ((result.0 ≡ true)
      × ((result.1.folders ≡ entries (map moved three_folders))
          × (result.1.connections
              ≡ entries (
                  map
                    (strip_unencrypted_secrets empty_store.seal_failed)
                    (map (moved_connection "All Connections/Work" n) (web ∷ []))))))
    × ((is_in (moved work).path (moved_connection "All Connections/Work" n web).folder
          ≡ is_in work.path web.folder)
        × (same_parent (moved servers).parent_path (some (moved work).path)
            ≡ same_parent servers.parent_path (some work.path)))
move_folder_recursive-members_example =
    move_folder_recursive-members 1 "All Connections/Work" (some "All Connections/Personal")
      three_folders (web ∷ []) empty_store work work servers web refl stays_out work-found
      goes_elsewhere is_new is_new_for_web is_new_for_servers servers-IsBelowParent refl

folder_at-IsDeeper : (id parent name : String) → IsDeeper (folder_at id parent name)
folder_at-IsDeeper id parent name q e = omega (
  arith,
  ap text_length (some_inj e),
  text_length-concat parent (concat "/" name),
  text_length-concat "/" name,
  one_long,
)
  where
    one_long : text_length "/" ≡ 1
    one_long = refl

top_folder-IsDeeper : IsDeeper top_folder
top_folder-IsDeeper q e = cc

is_deeper : (f g : ConnectionFolder) → f ≡ g → IsDeeper g → IsDeeper f
is_deeper f g e d = subst (λ (h : ConnectionFolder). IsDeeper h) (sym e) d

three_folders-AreDeeper : AreDeeper three_folders
three_folders-AreDeeper f (Memᴰ.head e) = is_deeper f top_folder e top_folder-IsDeeper
three_folders-AreDeeper f (Memᴰ.tail (Memᴰ.head e)) =
    is_deeper f work e (folder_at-IsDeeper "f1" "All Connections" "Work")
three_folders-AreDeeper f (Memᴰ.tail (Memᴰ.tail (Memᴰ.head e))) =
    is_deeper f servers e (folder_at-IsDeeper "f2" "All Connections/Work" "Servers")
three_folders-AreDeeper f (Memᴰ.tail (Memᴰ.tail (Memᴰ.tail (Memᴰ.head e)))) =
    is_deeper f personal e (folder_at-IsDeeper "f3" "All Connections" "Personal")
three_folders-AreDeeper f (Memᴰ.tail (Memᴰ.tail (Memᴰ.tail (Memᴰ.tail m)))) = elim m [ ]

three_folders_fit : longest three_folders + 2 ≤ 40
unfolding longest
three_folders_fit = omega arith

recursions_end_example :
    (is_some (valid_folders 40 three_folders) ≡ true)
    × (is_some (build_folder_tree [] (web ∷ []) 40 three_folders none) ≡ true)
recursions_end_example =
    recursions_end [] (web ∷ []) three_folders 40 three_folders-AreDeeper three_folders_fit

-- "lost" has a parent that is not stored.
abbrev lost : ConnectionFolder
lost = folder_at "f4" "Gone" "lost"

lost_is_not_valid : valid_folders 9 (lost ∷ three_folders) ≡ some three_folders
unfolding valid_folders collect_valid_paths gather children_of same_parent filter
lost_is_not_valid = refl

valid_folders-IsBelow_example :
    Memᴰ work three_folders
    ↔ (Memᴰ work (lost ∷ three_folders) × IsBelow (lost ∷ three_folders) none work.path)
valid_folders-IsBelow_example =
    valid_folders-IsBelow 9 (lost ∷ three_folders) three_folders work lost_is_not_valid
