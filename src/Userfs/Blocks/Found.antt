-- ===== src/Userfs/Blocks/Found.antt =====
-- The block that `get_block_by_index` of 3/userfs.cpp finds.
use mathlib.Core.Path.{subst}
use system_prog.Common.{
  get_elem?-lt, ℕ, zero, suc, ◌+◌, ◌-◌, ◌≤◌, ◌<◌, ◌≡◌, ap₂, ==_iff, ◌⊎◌, ◌∙◌, refl, sym, ap, Bool,
  true, false, Option, none, some, Option-cases, List, [], ◌∷◌, ◌++◌, ◌==◌, if_true, if_false,
  Bytes, get_elem?, length, length-append, arith, Bool-cases, inl, inr,
}
use system_prog.Userfs.Blocks.Calls.{copy_to}
use system_prog.Userfs.Blocks.Content.{content, content-add_block}
use system_prog.Userfs.Blocks.{
  block_size, copy_into, zeros, shift, find_from, place_of, Pointer, at, follow, Open, add_block,
  add_blocks, last_of, set_last, walk, step_to, before, neighbour, is_at, is_next, is_prev,
  get_block_by_index,
}
use system_prog.Userfs.{Block, pos}

-- Every block is older than an address.
abbrev pub Below : ℕ → List Block → Type 0
Below a [] = Unit
Below a (b ∷ bs) = (b.address < a) × Below a bs

Below-suc : (a : ℕ) (bs : List Block) → Below a bs → Below (a + 1) bs
Below-suc a [] h = tt
Below-suc a (b ∷ bs) h = (omega (arith, h.0), Below-suc a bs h.1)

Below-append :
    (a : ℕ) (bs : List Block) (b : Block) → Below a bs → b.address < a → Below a (bs ++ b ∷ [])
Below-append a [] b h l = (l, tt)
Below-append a (x ∷ bs) b h l = (h.0, Below-append a bs b h.1 l)

place_of-append :
    (bs : List Block) (b : Block)
    → Below b.address bs
    → place_of b.address (bs ++ b ∷ []) ≡ some (length bs)
place_of-append [] b h =
    let e : (b.address == b.address) ≡ true = (==_iff b.address b.address).1 refl in
    if_true (some 0) none e
place_of-append (x ∷ bs) b h =
    let ne : (x.address == b.address) ≡ false = ground (arith, h.0) in
    if_false _ _ ne ∙ ap shift (place_of-append bs b h.1)

place_of-lt : (a : ℕ) (bs : List Block) (k : ℕ) → place_of a bs ≡ some k → k < length bs
place_of-lt a [] k h = cc
place_of-lt a (b ∷ bs) k h = elim (Bool-cases (b.address == a)) [
  | inl e ↦
      let z : some 0 ≡ some k = sym (if_true _ _ e) ∙ h in let q : k ≡ 0 = cc in omega (arith, q)
  | inr e ↦
      let z : shift (place_of a bs) ≡ some k = sym (if_false _ _ e) ∙ h in
      elim (Option-cases (place_of a bs)) [
        | inl n ↦ cc (ap shift n, z)
        | inr (j, n) ↦
            let y : some (suc j) ≡ some k = sym (ap shift n) ∙ z in
            let q : k ≡ suc j = cc in omega (arith, q, place_of-lt a bs j n)
      ]
]

get_elem?-none_le : (bs : List Block) (k : ℕ) → get_elem? bs k ≡ none → length bs ≤ k
get_elem?-none_le [] k h = omega arith
get_elem?-none_le (x ∷ bs) zero h = cc
get_elem?-none_le (x ∷ bs) (suc k) h = omega (arith, get_elem?-none_le bs k h)

-- The file counts its blocks, and the next address is new.
pub record Sound (o : Open) : Type 0 where
  pub counted : o.file.blocks_count ≡ length o.file.blocks
  pub below : Below o.fresh o.file.blocks

Below-copy_into :
    (a : ℕ) (bs : List Block) (k offset : ℕ) (bytes : Bytes)
    → Below a bs
    → Below a (copy_into bs k offset bytes)
Below-copy_into a [] k offset bytes h = tt
Below-copy_into a (b ∷ bs) zero offset bytes h = h
Below-copy_into a (b ∷ bs) (suc k) offset bytes h = (h.0, Below-copy_into a bs k offset bytes h.1)

pub length-copy_into :
    (bs : List Block) (k o : ℕ) (a : Bytes) → length (copy_into bs k o a) ≡ length bs
length-copy_into [] k o a = refl
length-copy_into (b ∷ bs) zero o a = refl
length-copy_into (b ∷ bs) (suc k) o a = ap suc (length-copy_into bs k o a)

pub copy_to-Sound :
    (o : Open) (k offset chunk : ℕ) (bytes : Bytes)
    → Sound o
    → Sound (copy_to o k offset chunk bytes)
copy_to-Sound o k offset chunk bytes v = record {
  counted = v.counted ∙ sym (length-copy_into o.file.blocks k offset bytes);
  below = Below-copy_into o.fresh o.file.blocks k offset bytes v.below;
}

-- A cached block is where it was.
abbrev pub Cached : Open → Type 0
Cached o =
    (a : ℕ)
    → o.desc.cur_block ≡ some a
    → (k : ℕ) × (place_of a o.file.blocks ≡ some k) × (o.desc.cur_block_index ≡ pos k)

pub add_block-Sound : (o : Open) → Sound o → Sound (add_block o)
add_block-Sound o v =
    let b : Block = record { address = o.fresh; memory = zeros block_size } in
    record {
      counted = omega (arith, v.counted, length-append o.file.blocks (b ∷ []));
      below =
          Below-append (o.fresh + 1) o.file.blocks b (Below-suc o.fresh o.file.blocks v.below)
            (omega arith);
    }

-- The same bytes, position and size.
pub record Alike (o o' : Open) : Type 0 where
  pub bytes : (n : ℕ) → content o'.file.blocks n ≡ content o.file.blocks n
  pub same_pos : o'.desc.pos ≡ o.desc.pos
  pub same_size : o'.file.size ≡ o.file.size

pub Alike-refl : (o : Open) → Alike o o
Alike-refl o = record { bytes = λ n. refl; same_pos = refl; same_size = refl }

-- The block at a place was found.
pub record Found (o : Open) (index : ℕ) (r : Open × Pointer) : Type 0 where
  pub sound : Sound r.0
  pub longer : length o.file.blocks ≤ length r.0.file.blocks
  pub alike : Alike o r.0
  pub pointer : r.1 ≡ at index
  pub inside : index < length r.0.file.blocks

-- After some blocks were added, of which the last is the last of the file.
record Added (n : ℕ) (o o' : Open) : Type 0 where
  alike : Alike o o'
  sound : Sound o'
  longer : length o'.file.blocks ≡ length o.file.blocks + n
  last : last_of o' ≡ at (length o'.file.blocks - 1)

add_block-last :
    (o : Open)
    → Below o.fresh o.file.blocks
    → last_of (add_block o) ≡ at (length (add_block o).file.blocks - 1)
add_block-last o h =
    let b : Block = record { address = o.fresh; memory = zeros block_size } in
    ap follow (place_of-append o.file.blocks b h)
    ∙ ap at (omega (arith, length-append o.file.blocks (b ∷ [])))

add_blocks-Added :
    (n : ℕ) (o : Open)
    → Sound o
    → last_of o ≡ at (length o.file.blocks - 1)
    → Added n o (add_blocks n o)
unfolding add_blocks
add_blocks-Added zero o v l = record {
  alike = Alike-refl o;
  sound = v;
  longer = omega arith;
  last = l;
}
add_blocks-Added (suc n) o v l =
    let b : Block = record { address = o.fresh; memory = zeros block_size } in
    let rest = add_blocks-Added n (add_block o) (add_block-Sound o v) (add_block-last o v.below) in
    record {
      alike = record {
        bytes = λ i. rest.alike.bytes i ∙ content-add_block o i;
        same_pos = rest.alike.same_pos;
        same_size = rest.alike.same_size;
      };
      sound = rest.sound;
      longer = omega (arith, rest.longer, length-append o.file.blocks (b ∷ []));
      last = rest.last;
    }

-- One block at least is added.
grown-Found :
    (o : Open) (index n : ℕ)
    → Sound o
    → length o.file.blocks + suc n ≡ suc index
    → Found o index (set_last (add_blocks (suc n) o) index, last_of (add_blocks (suc n) o))
unfolding add_blocks
grown-Found o index n v e =
    let b : Block = record { address = o.fresh; memory = zeros block_size } in
    let a = add_blocks-Added n (add_block o) (add_block-Sound o v) (add_block-last o v.below) in
    let l = length-append o.file.blocks (b ∷ []) in
    record {
      alike = record {
        bytes = λ i. a.alike.bytes i ∙ content-add_block o i;
        same_pos = a.alike.same_pos;
        same_size = a.alike.same_size;
      };
      sound = record { counted = a.sound.counted; below = a.sound.below };
      longer = omega (arith, a.longer, l);
      pointer = a.last ∙ ap at (omega (arith, a.longer, l, e));
      inside = omega (arith, a.longer, l, e);
    }

walk-Found :
    (o : Open) (index : ℕ) (create : Bool)
    → Sound o
    → (create ≡ true) ⊎ (index < length o.file.blocks)
    → Found o index (walk o index create)
unfolding walk
walk-Found o index create v can = elim (Option-cases (get_elem? o.file.blocks index)) [
  | inr (b, e) ↦
      rw (walk, e)
        (record {
          sound = record { counted = v.counted; below = v.below };
          longer = omega arith;
          alike = record { bytes = λ n. refl; same_pos = refl; same_size = refl };
          pointer = refl;
          inside = get_elem?-lt o.file.blocks index e;
        })
  | inl e ↦
      let behind = get_elem?-none_le o.file.blocks index e in
      let n = index - length o.file.blocks in
      elim can [
        | inl c ↦
            let q : suc index - o.file.blocks_count ≡ suc n = omega (arith, v.counted, behind) in
            rw (walk, e)
              (subst (Found o index) (sym (if_true _ _ c)) (
                subst
                  (λ m. Found o index (set_last (add_blocks m o) index, last_of (add_blocks m o)))
                  (sym q) (grown-Found o index n v (omega (arith, behind)))))
        | inr l ↦ absurd (omega (arith, l, behind))
      ]
]

step_to-Found :
    (o : Open) (index : ℕ) (create : Bool) (k : Option ℕ) (r : Open × Pointer)
    → Sound o
    → ((j : ℕ) → k ≡ some j → j ≡ index)
    → Found o index r
    → Found o index (step_to o index create k r)
step_to-Found o index create none r v h f = f
step_to-Found o index create (some k) r v h f = elim (Option-cases (get_elem? o.file.blocks k)) [
  | inl e ↦ rw (step_to, e) f
  | inr (b, e) ↦
      rw (step_to, e)
        (record {
          sound = record { counted = v.counted; below = v.below };
          longer = omega arith;
          alike = record { bytes = λ n. refl; same_pos = refl; same_size = refl };
          pointer = ap at (h k refl);
          inside =
              subst (λ x. x < length o.file.blocks) (h k refl) (get_elem?-lt o.file.blocks k e);
        })
]

neighbour-Found :
    (o : Open) (index : ℕ) (create : Bool) (k : ℕ) (n p : Bool) (found : Open × Pointer)
    → Sound o
    → (n ≡ true → suc k ≡ index)
    → (p ≡ true → k ≡ suc index)
    → Found o index found
    → (r : Open × Pointer) × (neighbour o index create (some k) n p found ≡ some r)
      × Found o index r
neighbour-Found o index create k true p found v h l f = (
  _,
  refl,
  step_to-Found o index create (some (suc k)) found v
      (λ j e. let q : suc k ≡ j = cc in sym q ∙ h refl) f,
)
neighbour-Found o index create k false true found v h l f =
    let e = ap before (l refl) in
    (_, refl, step_to-Found o index create (before k) found v (λ j x. cc (e, x)) f)
neighbour-Found o index create k false false found v h l f = (found, refl, f)

-- A block that is there, or may be made, is found, with or without a cached block before it.
pub get_block_by_index-Found :
    (o : Open) (index : ℕ) (create : Bool)
    → Sound o
    → Cached o
    → (create ≡ true) ⊎ (index < length o.file.blocks)
    → (r : Open × Pointer) × (get_block_by_index o index create ≡ some r) × Found o index r
unfolding get_block_by_index
get_block_by_index-Found o index create v cached can =
    let w = walk-Found o index create v can in
    elim (Option-cases o.desc.cur_block) [
      | inl e ↦ (walk o index create, ap (find_from o index create) e, w)
      | inr (a, e) ↦
          let (k, placed, here) = cached a e in
          elim (Bool-cases (is_at o.desc.cur_block_index index)) [
            | inl t ↦
                let q : k ≡ index = (==_iff _ _).0 (ap (λ z. is_at z index) (sym here) ∙ t) in
                (
                  (o, follow (place_of a o.file.blocks)),
                  ap (find_from o index create) e ∙ if_true _ _ t,
                  record {
                    sound = v;
                    longer = omega arith;
                    alike = Alike-refl o;
                    pointer = ap follow placed ∙ ap at q;
                    inside =
                        subst (λ x. x < length o.file.blocks) q
                          (place_of-lt a o.file.blocks k placed);
                  },
                )
            | inr t ↦
                let (r, x, f) =
                  neighbour-Found o index create k (is_next (pos k) index) (is_prev (pos k) index)
                    (walk o index create) v (λ y. (==_iff _ _).0 y) (λ y. (==_iff _ _).0 y) w in
                (
                  r,
                  ap (find_from o index create) e
                      ∙ if_false _ _ t
                      ∙ ap₂
                          (λ z y.
                            neighbour o index create z (is_next y index) (is_prev y index)
                              (walk o index create))
                          placed here
                      ∙ x,
                  f,
                )
          ]
    ]
