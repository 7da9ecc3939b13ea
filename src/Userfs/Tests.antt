-- ===== src/Userfs/Tests.antt =====
-- Runs of the files, and an example of their theorem.
use system_prog.Common.{◌≤◌, ◌≡◌, refl, some, List, [], ◌∷◌}
use system_prog.Userfs.Alive.{refs_at, named_at, orphan_at}
use system_prog.Userfs.Safety.{Request, open_call, close_call, delete_call, requests, requests_lem}
use system_prog.Userfs.Table.{uses, entries}
use system_prog.Userfs.{pos, negsuc, Ufs, initial, ufs_open, ufs_err_no_file}

-- A file is made, opened again, deleted while it is open, and closed once.
abbrev busy : List Request
busy =
    open_call (some (97 ∷ [])) 1
    ∷ open_call (some (97 ∷ [])) 0
    ∷ delete_call (97 ∷ [])
    ∷ close_call (pos 1)
    ∷ []

requests_lem_example :
    (u : Ufs) × (requests busy initial ≡ some u)
    × (refs_at (u.files 0) ≡ uses 0 u.file_descriptors)
    × (named_at (u.files 0) ≡ entries 0 u.file_list)
    × (orphan_at (u.files 0) ≤ refs_at (u.files 0))
requests_lem_example = requests_lem busy 0

missing :
    ufs_open initial (some (97 ∷ [])) 0
    ≡ some (record initial { ufs_error_code = ufs_err_no_file }, negsuc 0)
unfolding ufs_open
missing = refl
