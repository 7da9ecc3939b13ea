-- ===== src/Userfs/Alive/Close.antt =====
-- `ufs_close` and `ufs_delete` keep the files alive that are pointed to.
use mathlib.Core.Path.{subst}
use system_prog.Common.{
  ℕ, zero, suc, ◌+◌, ◌-◌, ◌≤◌, ◌≡◌, ◌≢◌, ◌∙◌, refl, ap, sym, true, false, ◌&&◌, Option, none, some,
  arith, ◌==◌, Bytes, get_elem?, set, inl, inr, Bool-cases,
}
use system_prog.Userfs.Table.{uses, entries, uses-set-none, uses-reset, entries-remove}
use system_prog.Userfs.{
  ℤ, pos, negsuc, File, Filedesc, Ufs, ufs_err_no_file, put_file, find_file_by_name, reset,
  delete_file, close_file, desc_of, close_desc, ufs_close, remove, delete_named, delete_found,
  ufs_delete,
}
use system_prog.Userfs.Alive.Open.{listed-lives}
use system_prog.Userfs.Alive.{
  refs_at, named_at, orphan_at, Alive, Safe, Finds, put_self, put-ne, Changes-Alive, failed-Safe,
  succeed-Safe, one_if_self, one_if-ne, named_at-le, find_file_by_name-Finds,
}

freed_when :
    (f : File) → ((f.refs - 1 == 0) && f.deleted) ≡ true → (f.refs ≤ 1) × (named_at (some f) ≡ 0)
freed_when f t = (ground arith, ground arith)

kept_when : (f : File) → ((f.refs - 1 == 0) && f.deleted) ≡ false → orphan_at (some f) ≤ f.refs - 1
kept_when f t = ground arith

module _ (u : Ufs) (i : ℕ) (d : Filedesc) (f : File)
    (at : desc_of (get_elem? u.file_descriptors i) ≡ some d) (e : u.files d.atfile ≡ some f)
    (h : Alive u) where
  abbrev a : ℕ
  a = d.atfile

  abbrev closed : Ufs
  closed = record u {
    files = put_file u.files a (some (record f { refs = f.refs - 1 }));
    file_descriptors = set u.file_descriptors i none;
  }

  closed-uses : uses a (set u.file_descriptors i none) + 1 ≡ f.refs
  closed-uses =
      omega
        (arith, uses-set-none a u.file_descriptors i d at, one_if_self a, h.counted a, ap refs_at e)

  closed-uses_else :
      (b : ℕ) → a ≢ b → uses b (set u.file_descriptors i none) ≡ uses b u.file_descriptors
  closed-uses_else b ne = omega (arith, uses-set-none b u.file_descriptors i d at, one_if-ne a b ne)

  last_close-Alive : ((f.refs - 1 == 0) && f.deleted) ≡ true → Alive (delete_file closed a)
  last_close-Alive t =
      let ds = set u.file_descriptors i none in
      Changes-Alive {u = u} {a = a} {g = none} {v = delete_file closed a}
        (record {
          here = put_self closed.files a none;
          elsewhere = λ b ne.
              put-ne closed.files a b none ne
              ∙ put-ne u.files a b (some (record f { refs = f.refs - 1 })) ne;
          counted_here = omega (arith, closed-uses, uses-reset a a ds, (freed_when f t).0);
          counted_else = λ b ne. uses-reset b a ds ∙ closed-uses_else b ne;
          entered_here = omega (arith, h.entered a, ap named_at e, (freed_when f t).1);
          entered_else = λ b ne. refl;
          used_here = omega arith;
          unborn_here = λ le. refl;
          later = omega arith;
        })
        h

  close-Alive : ((f.refs - 1 == 0) && f.deleted) ≡ false → Alive closed
  close-Alive t =
      Changes-Alive {u = u} {a = a} {g = some (record f { refs = f.refs - 1 })} {v = closed}
        (record {
          here = put_self u.files a (some (record f { refs = f.refs - 1 }));
          elsewhere = λ b ne. put-ne u.files a b (some (record f { refs = f.refs - 1 })) ne;
          counted_here = omega (arith, closed-uses);
          counted_else = closed-uses_else;
          entered_here = omega (arith, h.entered a, ap named_at e);
          entered_else = λ b ne. refl;
          used_here = kept_when f t;
          unborn_here = λ le. cc (h.unborn a le, e);
          later = omega arith;
        })
        h

  close_file-Safe : Safe (close_file u i a (some f))
  unfolding close_file
  close_file-Safe = elim (Bool-cases ((f.refs - 1 == 0) && f.deleted)) [
    | inl t ↦ rw t (succeed-Safe (delete_file closed a) (last_close-Alive t))
    | inr t ↦ rw t (succeed-Safe closed (close-Alive t))
  ]

module _ (u : Ufs) (a : ℕ) (f : File) (n : 1 ≤ entries a u.file_list) (e : u.files a ≡ some f)
    (h : Alive u) where
  abbrev unlinked : Ufs
  unlinked = record u {
    files = put_file u.files a (some (record f { deleted = true }));
    file_list = remove a u.file_list;
    file_descriptors = reset a u.file_descriptors;
  }

  unlinked-entries : entries a (remove a u.file_list) ≡ 0
  unlinked-entries = omega (
    arith,
    n,
    entries-remove a a u.file_list n,
    one_if_self a,
    h.entered a,
    named_at-le (u.files a),
  )

  unlinked-entries_else : (b : ℕ) → a ≢ b → entries b (remove a u.file_list) ≡ entries b u.file_list
  unlinked-entries_else b ne = omega (arith, entries-remove b a u.file_list n, one_if-ne a b ne)

  gone-Alive : f.refs ≡ 0 → Alive (delete_file unlinked a)
  gone-Alive t =
      Changes-Alive {u = u} {a = a} {g = none} {v = delete_file unlinked a}
        (record {
          here = put_self unlinked.files a none;
          elsewhere = λ b ne.
              put-ne unlinked.files a b none ne
              ∙ put-ne u.files a b (some (record f { deleted = true })) ne;
          counted_here = omega (
            arith,
            t,
            h.counted a,
            ap refs_at e,
            uses-reset a a u.file_descriptors,
            uses-reset a a (reset a u.file_descriptors),
          );
          counted_else = λ b ne.
              uses-reset b a (reset a u.file_descriptors) ∙ uses-reset b a u.file_descriptors;
          entered_here = sym unlinked-entries;
          entered_else = unlinked-entries_else;
          used_here = omega arith;
          unborn_here = λ le. refl;
          later = omega arith;
        })
        h

  unlinked-Alive : 1 ≤ f.refs → Alive unlinked
  unlinked-Alive t =
      Changes-Alive {u = u} {a = a} {g = some (record f { deleted = true })} {v = unlinked}
        (record {
          here = put_self u.files a (some (record f { deleted = true }));
          elsewhere = λ b ne. put-ne u.files a b (some (record f { deleted = true })) ne;
          counted_here =
              omega (arith, h.counted a, ap refs_at e, uses-reset a a u.file_descriptors);
          counted_else = λ b ne. uses-reset b a u.file_descriptors;
          entered_here = sym unlinked-entries;
          entered_else = unlinked-entries_else;
          used_here = t;
          unborn_here = λ le. cc (h.unborn a le, e);
          later = omega arith;
        })
        h

  delete_named-Safe : Safe (delete_named u a (some f))
  unfolding delete_named
  delete_named-Safe = elim (Bool-cases (f.refs == 0)) [
    | inl t ↦ rw t (succeed-Safe (delete_file unlinked a) (gone-Alive (ground arith)))
    | inr t ↦ rw t (succeed-Safe unlinked (unlinked-Alive (ground arith)))
  ]

used-lives :
    (u : Ufs) (a : ℕ) (g : Option File)
    → u.files a ≡ g
    → 1 ≤ uses a u.file_descriptors
    → Alive u
    → (f : File) × (g ≡ some f)
used-lives u a none e n h = absurd (omega (arith, h.counted a, ap refs_at e, n))
used-lives u a (some f) e n h = (f, refl)

close_desc-Safe :
    (u : Ufs) (i : ℕ) (o : Option Filedesc)
    → desc_of (get_elem? u.file_descriptors i) ≡ o
    → Alive u
    → Safe (close_desc u i o)
unfolding close_desc
close_desc-Safe u i none at h = failed-Safe u ufs_err_no_file h
close_desc-Safe u i (some d) at h =
    let n : 1 ≤ uses d.atfile u.file_descriptors =
      omega (arith, uses-set-none d.atfile u.file_descriptors i d at, one_if_self d.atfile) in
    (let (f, e) = used-lives u d.atfile (u.files d.atfile) refl n h in
      subst (λ g. Safe (close_file u i d.atfile g)) (sym e) (close_file-Safe u i d f at e h))

pub ufs_close-Safe : (u : Ufs) (fd : ℤ) → Alive u → Safe (ufs_close u fd)
unfolding ufs_close
ufs_close-Safe u (negsuc k) h = failed-Safe u ufs_err_no_file h
ufs_close-Safe u (pos zero) h = failed-Safe u ufs_err_no_file h
ufs_close-Safe u (pos (suc i)) h =
    close_desc-Safe u i (desc_of (get_elem? u.file_descriptors i)) refl h

delete_found-Safe :
    (u : Ufs) (r : Option (Option ℕ)) → Finds r u.file_list → Alive u → Safe (delete_found u r)
unfolding delete_found
delete_found-Safe u none found h = elim found [ inl e ↦ cc | inr (b, e, n) ↦ cc ]
delete_found-Safe u (some none) found h = failed-Safe u ufs_err_no_file h
delete_found-Safe u (some (some a)) found h = elim found [
  | inl e ↦ cc
  | inr (b, e, n) ↦
      let same : b ≡ a = cc in
      let listed : 1 ≤ entries a u.file_list = subst (λ c. 1 ≤ entries c u.file_list) same n in
      (let (f, live) = listed-lives u a (u.files a) refl listed h in
        subst (λ g. Safe (delete_named u a g)) (sym live) (delete_named-Safe u a f listed live h))
]

pub ufs_delete-Safe : (u : Ufs) (name : Bytes) → Alive u → Safe (ufs_delete u name)
unfolding ufs_delete
ufs_delete-Safe u name h =
    delete_found-Safe u (find_file_by_name u name) (find_file_by_name-Finds u name h) h
