-- ===== src/Userfs/Safety.antt =====
-- Programs of calls on the files, from the start.
use system_prog.Common.{ℕ, ◌≤◌, ◌≡◌, refl, ap, ◌∙◌, Option, none, some, List, [], ◌∷◌, arith, Bytes}
use system_prog.Userfs.Alive.Close.{ufs_close-Safe, ufs_delete-Safe}
use system_prog.Userfs.Alive.Open.{ufs_open-Safe}
use system_prog.Userfs.Alive.{refs_at, named_at, orphan_at, Alive, Safe}
use system_prog.Userfs.Table.{uses, entries}
use system_prog.Userfs.{ℤ, Ufs, ufs_open, ufs_close, ufs_delete, initial}

pub data Request : Type 0 where
  open_call : Option Bytes → ℕ → Request
  close_call : ℤ → Request
  delete_call : Bytes → Request

abbrev pub request : Ufs → Request → Option (Ufs × ℤ)
request u (open_call name flags) = ufs_open u name flags
request u (close_call fd) = ufs_close u fd
request u (delete_call name) = ufs_delete u name

abbrev pub continue_with : (Ufs → Option Ufs) → Option (Ufs × ℤ) → Option Ufs
continue_with k none = none
continue_with k (some (u, result)) = k u

-- The state after the calls, whatever they return, if none of them follows a dangling pointer.
abbrev pub requests : List Request → Ufs → Option Ufs
requests [] u = some u
requests (q ∷ qs) u = continue_with (requests qs) (request u q)

request-Safe : (u : Ufs) (q : Request) → Alive u → Safe (request u q)
request-Safe u (open_call name flags) h = ufs_open-Safe u name flags h
request-Safe u (close_call fd) h = ufs_close-Safe u fd h
request-Safe u (delete_call name) h = ufs_delete-Safe u name h

requests-Alive :
    (qs : List Request) (u : Ufs) → Alive u → (v : Ufs) × (requests qs u ≡ some v) × Alive v
requests-Alive [] u h = (u, refl, h)
requests-Alive (q ∷ qs) u h =
    (let (v, result, e, k) = request-Safe u q h in
      (let (w, f, l) = requests-Alive qs v k in (w, ap (continue_with (requests qs)) e ∙ f, l)))

initial-Alive : Alive initial
initial-Alive = record {
  counted = λ a. refl;
  entered = λ a. refl;
  used = λ a. omega arith;
  unborn = λ a h. refl;
}

-- No sequence of calls of `ufs_open`, `ufs_close` and `ufs_delete` from the start follows a pointer to
-- a file that is gone. After it, at every address: the reference count of the file that lives there
-- is the number of descriptors that use it; the directory names it once, or not at all if it was
-- deleted, and then a descriptor still uses it; and where no file lives, no descriptor and no entry
-- of the directory points.
pub requests_lem :
    (qs : List Request) (a : ℕ)
    → (u : Ufs) × (requests qs initial ≡ some u)
      × (refs_at (u.files a) ≡ uses a u.file_descriptors)
      × (named_at (u.files a) ≡ entries a u.file_list)
      × (orphan_at (u.files a) ≤ refs_at (u.files a))
requests_lem qs a =
    (let (u, e, h) = requests-Alive qs initial initial-Alive in
      (u, e, h.counted a, h.entered a, h.used a))
