-- ===== src/Worker/Files/Get.antt =====
-- worker/htttphandle.go: the status of RemoteGetSector.
use filecoin_sealer.Prelude.{◌≡◌, refl, String, List, [], ◌∷◌, ℤ, Called, got, lost, ◌⊎◌, inl, inr}
use filecoin_sealer.Tables.{DbTaskInfo}
use filecoin_sealer.Miner.{Reply}
use filecoin_sealer.Worker.Files.Defs.{
  Route, Written, header, status_of, look_up, EntryCalls, Stat, directory, file, path_of, or_500,
  send_entries, send_path, get_path, remote_get_sector,
}

-- Nothing but the status 500, or a part of the body under the status 200.
abbrev pub IsWhole : List Written → Type 0
IsWhole ws = (ws ≡ header 500 ∷ []) ⊎ (status_of ws ≡ 200)

or_500-IsWhole : (o : Called (Unit {0})) (ws : List Written) → IsWhole ws → IsWhole (or_500 o ws)
or_500-IsWhole (lost e) ws h = inl refl
or_500-IsWhole (got _) ws h = h

send_entries-IsWhole : (cs : List EntryCalls) → IsWhole (send_entries cs)
unfolding send_entries
send_entries-IsWhole [] = inr refl
send_entries-IsWhole (c ∷ cs) = or_500-IsWhole c.info _ (or_500-IsWhole c.tar_header _ (inr refl))

send_path-IsWhole : (s : Stat) → IsWhole (send_path s)
send_path-IsWhole (directory (lost e)) = inl refl
send_path-IsWhole (directory (got cs)) = send_entries-IsWhole cs
send_path-IsWhole (file (lost e) copy) = inl refl
send_path-IsWhole (file (got _) copy) = inr refl

-- On every path of RemoteGetSector, errors included, the client sees either the status 500 and no part
-- of a file, or the status 200. (It sees 200 even when a later file of the directory could not be sent.)
pub remote_get_sector-IsWhole :
    (parse : String → Called ℤ) (query : ℤ → ℤ → Called Reply) (stat : String → Called Stat)
    (route : Route)
    → IsWhole (remote_get_sector parse query stat route)
unfolding remote_get_sector
remote_get_sector-IsWhole parse query stat route = looked_up (look_up parse query route)
  where
    found : (o : Called Stat) → IsWhole (elim o [ lost e ↦ header 500 ∷ [] | got s ↦ send_path s ])
    found (lost e) = inl refl
    found (got s) = send_path-IsWhole s

    looked_up : (o : Called (String × DbTaskInfo)) → IsWhole (get_path stat o)
    looked_up (lost e) = inl refl
    looked_up (got (path_type, r)) = found (stat (path_of path_type r))
