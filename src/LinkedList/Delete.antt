-- ===== src/LinkedList/Delete.antt =====
-- `list_delete` takes the first item with the pointer out of the list.
use mybmm.Base.{
  ℕ, zero, suc, ◌<◌, ◌≡◌, ◌≢◌, refl, ap, ◌∙◌, true, false, none, some, List, [], ◌∷◌, ◌++◌,
  append-nil, ◌==◌, arith, if◌then◌else◌, All, length, pos,
}
use mybmm.LinkedList.{Lst, set_next, set_prev, unlink, delete_loop, list_delete}
use mybmm.LinkedList.Store.{Ptr, null, Memory, done, pure, next_run, update, free, free_block}
use mybmm.LinkedList.Chain.{
  Cell, first_of, last_of, has, IsDistinct, Map, item_of, IsChain, IsList, has-append, has-ne,
  last_of-snoc, last_of-append, has-last_of, apart_sym, IsDistinct-append, IsDistinct-split,
  IsChain-frame, IsChain-split, IsChain-append, load-done, IsChain-last,
}

-- The memory has other items only at the cells.
abbrev IsSame : List Cell → Map → Map → Type 0
IsSame cs h g = (a : Ptr) → has a cs ≡ false → g a ≡ h a

set_next-IsChain :
    (m : Memory) (stop q : Ptr) (cs : List Cell)
    → IsDistinct cs
    → IsChain m.items null stop cs
    → (g : Map) × (set_next (last_of null cs) q m ≡ done tt (record m { items = g }))
      × IsChain g null q cs
      × IsSame cs m.items g
unfolding set_next
set_next-IsChain m stop q [] d ch = (m.items, refl, tt, λ a o. refl)
set_next-IsChain m stop q (c ∷ cs) d ch =
    let (n, f, _, nn, mem, change) = IsChain-last m.items null stop c cs d ch in
    let last = last_of null (c ∷ cs) in
    let there : (last == null) ≡ false = ground arith in
    (
      update m.items last (some (record n { next = q })),
      rw (there, load-done m last n nn f),
      change q,
      λ a o. unfold update in ground (arith, has-ne a last (c ∷ cs) o mem),
    )

set_prev-IsChain :
    (m : Memory) (prev q : Ptr) (cs : List Cell)
    → IsDistinct cs
    → IsChain m.items prev null cs
    → (g : Map) × (set_prev (first_of null cs) q m ≡ done tt (record m { items = g }))
      × IsChain g q null cs
      × IsSame cs m.items g
unfolding set_prev update
set_prev-IsChain m prev q [] d ch = (m.items, refl, tt, λ a o. refl)
set_prev-IsChain m prev q (c ∷ cs) (out, d) (nn, e, rest) =
    let there : (c.at == null) ≡ false = ground arith in
    let g = update m.items c.at (some (item_of c q (first_of null cs))) in
    (
      g,
      rw (there, load-done m c.at _ nn e),
      (
        nn,
        ground arith,
        IsChain-frame m.items g c.at null cs (λ a i. ground (arith, has-ne c.at a cs out i)) rest,
      ),
      λ a o. ground arith,
    )

-- A block that may be freed: none, or one that is allocated.
abbrev pub IsOwned : Memory → Ptr → Type 0
IsOwned m p = (bytes : List ℕ) × (m.blocks p ≡ some bytes)

-- the record without the item at `ip`
abbrev without : Lst → Ptr → Ptr → Ptr → Lst
without l ip p q = record {
  first = if ip == l.first then q else l.first;
  last = if ip == l.last then p else l.last;
  next = if ip == l.next then q else l.next;
}

-- the list without the cell `c`
pub record IsWithout (m : Memory) (l : Lst) (xs : List Cell) (c : Cell) (ys : List Cell)
    (item : Ptr) (m' : Memory) (l' : Lst) : Type 0 where
  pub list : IsList m' l' (xs ++ ys)
  pub gone : m'.items c.at ≡ none
  pub next : l'.next ≡ (if c.at == l.next then first_of null ys else l.next)
  pub freed : m'.blocks ≡ update m.blocks item none

first_without :
    (xs : List Cell) (c : Cell) (ys : List Cell)
    → has c.at xs ≡ false
    → (if c.at == first_of null (xs ++ c ∷ ys)
        then first_of null ys
        else first_of null (xs ++ c ∷ ys))
      ≡ first_of null (xs ++ ys)
first_without [] c ys out = ground arith
first_without (x ∷ xs) c ys out = ground arith

last_without :
    (xs : List Cell) (c : Cell) (ys : List Cell)
    → has c.at ys ≡ false
    → (if c.at == last_of null (xs ++ c ∷ ys) then last_of null xs else last_of null (xs ++ c ∷ ys))
      ≡ last_of null (xs ++ ys)
last_without xs c [] out = rw (last_of-snoc null xs c, append-nil) (ground arith)
last_without xs c (y ∷ ys) out =
    let other : (c.at == last_of y.at ys) ≡ false =
      has-ne c.at (last_of y.at ys) (y ∷ ys) out (has-last_of y ys) in
    rw (last_of-append null xs (c ∷ y ∷ ys), last_of-append null xs (y ∷ ys), other)

unlink-IsWithout :
    (m : Memory) (l : Lst) (xs : List Cell) (c : Cell) (ys : List Cell) (item : Ptr)
    → IsList m l (xs ++ c ∷ ys)
    → item ≢ null
    → IsOwned m item
    → (m' : Memory) × (l' : Lst) × (unlink l c.at
          (item_of c (last_of null xs) (first_of null ys))
          item
          m
        ≡ done l' m')
      × IsWithout m l xs c ys item m' l'
unfolding unlink free_block free
unlink-IsWithout m l xs c ys item is inn (bytes, owned) =
    let (dx, (out, dy), apart) = IsDistinct-split xs (c ∷ ys) is.distinct in
    let (front, (nn, e, back)) = IsChain-split m.items null null xs (c ∷ ys) is.chain in
    let p = last_of null xs in
    let q = first_of null ys in
    let (g1, e1, ch1, same1) = set_next-IsChain m c.at q xs dx front in
    let m1 : Memory = record m { items = g1 } in
    let out_xs : has c.at xs ≡ false = apart_sym xs (c ∷ ys) apart c.at (ground arith) in
    let back1 : IsChain g1 c.at null ys =
      IsChain-frame m.items g1 c.at null ys
        (λ a i. same1 a (apart_sym xs (c ∷ ys) apart a (ground arith))) back in
    let (g2, e2, ch2, same2) = set_prev-IsChain m1 c.at p ys dy back1 in
    let at_c : g2 c.at ≡ some (item_of c p q) = same2 c.at out ∙ (same1 c.at out_xs ∙ e) in
    let m2 : Memory = record { items = g2; blocks = update m.blocks item none } in
    let g3 = update g2 c.at none in
    let real : (item == null) ≡ false = ground arith in
    let away : (a : Ptr) → has a (xs ++ ys) ≡ true → g3 a ≡ g2 a = λ a i.
      unfold update in
      ground (arith, has-append a xs ys, has-ne c.at a xs out_xs, has-ne c.at a ys out) in
    let front3 : IsChain g3 null q xs =
      IsChain-frame g1 g3 null q xs
        (λ a i. away a (ground (arith, has-append a xs ys)) ∙ same2 a (ground (arith, apart a i)))
        ch1 in
    let back3 : IsChain g3 p null ys =
      IsChain-frame g2 g3 p null ys (λ a i. away a (ground (arith, has-append a xs ys))) ch2 in
    let list : IsList (record { items = g3; blocks = update m.blocks item none })
        (without l c.at p q) (xs ++ ys) =
      record {
        chain = IsChain-append g3 null null xs ys front3 back3;
        distinct = IsDistinct-append xs ys dx dy (λ a i. ground (arith, apart a i));
        first = rw is.first (first_without xs c ys out_xs);
        last = rw is.last (last_without xs c ys out);
      } in
    (
      record { items = g3; blocks = update m.blocks item none },
      without l c.at p q,
      rw (e1, e2, real, owned, load-done m2 c.at _ nn at_c),
      record { list = list; gone = unfold update in ground arith; next = refl; freed = refl },
    )

-- A cell with another item.
abbrev pub IsOther : Ptr → Cell → Type 0
IsOther item c = (item == c.item) ≡ false

delete_loop-unlink :
    (m : Memory) (l : Lst) (fuel : ℕ) (prev : Ptr) (xs : List Cell) (c : Cell) (ys : List Cell)
    → IsChain m.items prev null (xs ++ c ∷ ys)
    → All (IsOther c.item) xs
    → length xs < fuel
    → delete_loop fuel l c.item (first_of null (xs ++ c ∷ ys)) m
      ≡ next_run
          (unlink l c.at (item_of c (last_of prev xs) (first_of null ys)) c.item m)
          (λ l'. pure (pos 0, some l'))
unfolding delete_loop
delete_loop-unlink m l zero prev xs c ys ch others enough = absurd (omega arith)
delete_loop-unlink m l (suc fuel) prev [] c ys (nn, e, rest) others enough =
    let there : (c.at == null) ≡ false = ground arith in
    let hit : (c.item == c.item) ≡ true = ground arith in rw (there, load-done m c.at _ nn e, hit)
delete_loop-unlink m l (suc fuel) prev (x ∷ xs) c ys (nn, e, rest) (other, others) enough =
    let there : (x.at == null) ≡ false = ground arith in
    rw (there, load-done m x.at _ nn e, other)
      (delete_loop-unlink m l fuel x.at xs c ys rest others (omega arith))

delete_loop-missing :
    (m : Memory) (l : Lst) (fuel : ℕ) (prev item : Ptr) (cs : List Cell)
    → IsChain m.items prev null cs
    → All (IsOther item) cs
    → length cs < fuel
    → delete_loop fuel l item (first_of null cs) m ≡ done (pos 1, some l) m
unfolding delete_loop
delete_loop-missing m l zero prev item cs ch others enough = absurd (omega arith)
delete_loop-missing m l (suc fuel) prev item [] ch others enough = refl
delete_loop-missing m l (suc fuel) prev item (x ∷ xs) (nn, e, rest) (other, others) enough =
    let there : (x.at == null) ≡ false = ground arith in
    rw (there, load-done m x.at _ nn e, other)
      (delete_loop-missing m l fuel x.at item xs rest others (omega arith))

-- With more fuel than there are items, `list_delete` of a pointer that is in the list, and points to
-- an allocated block, returns 0 and takes the first cell with it out: the list is that of the other
-- cells in their order, the memory of the cell and the block are freed, and a next item at the cell
-- becomes the one behind it.
pub list_delete-IsWithout :
    (m : Memory) (l : Lst) (fuel : ℕ) (xs : List Cell) (c : Cell) (ys : List Cell)
    → IsList m l (xs ++ c ∷ ys)
    → All (IsOther c.item) xs
    → length xs < fuel
    → c.item ≢ null
    → IsOwned m c.item
    → (m' : Memory) × (l' : Lst) × (list_delete fuel (some l) c.item m ≡ done (pos 0, some l') m')
      × IsWithout m l xs c ys c.item m' l'
unfolding list_delete
list_delete-IsWithout m l fuel xs c ys is others enough nn owned =
    let (m', l', e, without_c) = unlink-IsWithout m l xs c ys c.item is nn owned in
    (
      m',
      l',
      ap (λ p. delete_loop fuel l c.item p m) is.first
          ∙ (delete_loop-unlink m l fuel null xs c ys is.chain others enough
              ∙ ap (λ r. next_run r (λ l'. pure (pos 0, some l'))) e),
      without_c,
    )

-- Of a pointer that is not in the list `list_delete` returns 1 and changes nothing.
pub list_delete_missing :
    (m : Memory) (l : Lst) (fuel : ℕ) (item : Ptr) (cs : List Cell)
    → IsList m l cs
    → All (IsOther item) cs
    → length cs < fuel
    → list_delete fuel (some l) item m ≡ done (pos 1, some l) m
unfolding list_delete
list_delete_missing m l fuel item cs is others enough =
    ap (λ p. delete_loop fuel l item p m) is.first
    ∙ delete_loop-missing m l fuel null item cs is.chain others enough
