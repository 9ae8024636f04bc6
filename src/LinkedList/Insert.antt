-- ===== src/LinkedList/Insert.antt =====
-- `list_add` appends an item.
use mybmm.Base.{
  ℕ, ◌≤◌, ◌≡◌, ◌≢◌, refl, sym, ◌∙◌, true, false, Option, none, some, List, [], ◌∷◌, ◌++◌, ◌==◌,
  arith, if◌then◌else◌, take, length,
}
use mybmm.LinkedList.{Lst, new_item, link_item, add_made, list_add}
use mybmm.LinkedList.Store.{Ptr, null, Memory, done, update, store_block}
use mybmm.LinkedList.Chain.{
  Cell, first_of, last_of, has, IsDistinct, item_of, IsChain, IsList, has-ne, last_of-snoc,
  IsDistinct-append, IsChain-frame, IsChain-split, IsChain-append, unused_has, load-done,
  load_block-done, IsChain-last,
}

-- What the list will hold for an item that is added: the pointer itself where the size is 0, or a
-- block of its own with a copy of that many bytes.
pub data IsPayload (m : Memory) (item : Ptr) (size : ℕ) (block : Ptr)
    : Ptr → (Ptr → Option (List ℕ)) → Type 0 where
  shared : size ≡ 0 → IsPayload m item size block item m.blocks
  copied :
      {bytes : List ℕ}
      → size ≢ 0
      → block ≢ null
      → m.blocks item ≡ some bytes
      → size ≤ length bytes
      → IsPayload m item size block block (update m.blocks block (some (take size bytes)))

abbrev made : Memory → Ptr → Ptr → ℕ → (Ptr → Option (List ℕ)) → Memory
made m fresh p size bl = record {
  items = update m.items fresh (some (record { item = p; size = size; prev = null; next = null }));
  blocks = bl;
}

new_item-made :
    (m : Memory) (fresh block item : Ptr) (size : ℕ) {p : Ptr} {bl : Ptr → Option (List ℕ)}
    → fresh ≢ null
    → IsPayload m item size block p bl
    → new_item fresh block item size m ≡ done fresh (made m fresh p size bl)
unfolding new_item store_block
new_item-made m fresh block item size nn (shared e) =
    let there : (fresh == null) ≡ false = ground arith in
    let none_to_copy : (size == 0) ≡ true = ground arith in rw (there, none_to_copy)
new_item-made m fresh block item size nn (copied {bytes} ne bn e fits) =
    let there : (fresh == null) ≡ false = ground arith in
    let to_copy : (size == 0) ≡ false = ground arith in
    let room : (block == null) ≡ false = ground arith in
    rw (there, to_copy, room, load_block-done m item size bytes e fits)

abbrev cell : Ptr → Ptr → ℕ → Cell
cell a p n = record { at = a; item = p; size = n }

-- the list after the item is linked
abbrev IsLinked : Memory → Lst → List Cell → Cell → Memory → Lst → Type 0
IsLinked m l cs c m' l' =
    IsList m' l' (cs ++ c ∷ [])
    × (m'.blocks ≡ m.blocks)
    × ((a : Ptr) → a ≢ c.at → has a cs ≡ false → m'.items a ≡ m.items a)
    × (l'.next ≡ (if l.first == null then c.at else l.next))

link_item-IsLinked :
    (m : Memory) (l : Lst) (cs : List Cell) (fresh p : Ptr) (size : ℕ)
    → IsChain m.items null null cs
    → IsDistinct cs
    → l.first ≡ first_of null cs
    → l.last ≡ last_of null cs
    → fresh ≢ null
    → has fresh cs ≡ false
    → m.items fresh ≡ some (record { item = p; size = size; prev = null; next = null })
    → (m' : Memory) × (l' : Lst) × (link_item l fresh m ≡ done l' m')
      × IsLinked m l cs (cell fresh p size) m' l'
unfolding link_item update
link_item-IsLinked m l [] fresh p size ch d ef el nn out e =
    let empty : (l.first == null) ≡ true = ground arith in
    (
      m,
      record { first = fresh; last = fresh; next = fresh },
      rw empty,
      (
        record { chain = (nn, e, tt); distinct = (refl, tt); first = refl; last = refl },
        refl,
        λ a other out'. refl,
        rw empty,
      ),
    )
link_item-IsLinked m l (c ∷ cs) fresh p size ch d ef el nn out e =
    let full : (l.first == null) ≡ false = ground arith in
    let (n, f, _, ln, mem, change) = IsChain-last m.items null null c cs d ch in
    let last = last_of null (c ∷ cs) in
    let apart : (fresh == last) ≡ false = has-ne fresh last (c ∷ cs) out mem in
    let h1 = update m.items last (some (record n { next = fresh })) in
    let at_fresh : h1 fresh ≡ some (record { item = p; size = size; prev = null; next = null }) =
      rw apart e in
    let h2 = update h1 fresh (some (item_of (cell fresh p size) last null)) in
    let m1 : Memory = record m { items = h1 } in
    let m2 : Memory = record m { items = h2 } in
    let chained : IsChain h2 null null ((c ∷ cs) ++ cell fresh p size ∷ []) =
      IsChain-append h2 null null (c ∷ cs) (cell fresh p size ∷ [])
        (IsChain-frame h1 h2 null fresh (c ∷ cs)
          (λ a i. ground (arith, has-ne fresh a (c ∷ cs) out i)) (change fresh))
        (nn, ground arith, tt) in
    (
      m2,
      record l { last = fresh },
      rw (full, el, load-done m last n ln f, load-done m1 fresh _ nn at_fresh),
      (
        record {
          chain = chained;
          distinct =
              IsDistinct-append (c ∷ cs) (cell fresh p size ∷ []) d (refl, tt)
                (λ a i. ground (arith, has-ne fresh a (c ∷ cs) out i));
          first = ef;
          last = sym (last_of-snoc c.at cs (cell fresh p size));
        },
        refl,
        λ a other out'.
            let not_fresh : (a == fresh) ≡ false = ground arith in
            let not_last : (a == last) ≡ false = has-ne a last (c ∷ cs) out' mem in
            rw (not_fresh, not_last) refl,
        rw full,
      ),
    )

-- A list with an item at an address that `malloc` gave (neither null nor in use), and room for a copy
-- of the item where its size is not 0, has that item behind all others after `list_add`, which
-- returns where the item is. Of the blocks only that of the copy changes, and no item of memory but those of the
-- list and the new one; the next item stays the same, or is the new one if the list was empty.
pub list_add-append :
    (m : Memory) (l : Lst) (cs : List Cell) (fresh block item : Ptr) (size : ℕ) {p : Ptr}
    {bl : Ptr → Option (List ℕ)}
    → IsList m l cs
    → fresh ≢ null
    → m.items fresh ≡ none
    → IsPayload m item size block p bl
    → (m' : Memory) × (l' : Lst) × (list_add fresh block (some l) item size m
        ≡ done (p, some l') m')
      × IsList m' l' (cs ++ (record { at = fresh; item = p; size = size }) ∷ [])
      × (m'.blocks ≡ bl)
      × ((a : Ptr) → a ≢ fresh → has a cs ≡ false → m'.items a ≡ m.items a)
      × (l'.next ≡ (if l.first == null then fresh else l.next))
unfolding list_add add_made
list_add-append m l cs fresh block item size {p} {bl} is nn unused payload =
    let m1 = made m fresh p size bl in
    let out : has fresh cs ≡ false = unused_has m.items null null fresh cs is.chain unused in
    let kept : IsChain m1.items null null cs =
      unfold update in
      IsChain-frame m.items _ null null cs (λ a i. ground (arith, has-ne fresh a cs out i))
        is.chain in
    let there : (fresh == null) ≡ false = ground arith in
    let (m', l', e, (list, bl', others, nx)) =
      link_item-IsLinked m1 l cs fresh p size kept is.distinct is.first is.last nn out
        (unfold update in ground arith) in
    let (_, here, _) =
      (IsChain-split m'.items null null cs (cell fresh p size ∷ []) list.chain).1 in
    (
      m',
      l',
      rw (new_item-made m fresh block item size nn payload, there, e, load-done m' fresh _ nn here),
      list,
      bl',
      λ a other out'.
          let not_fresh : (a == fresh) ≡ false = ground arith in
          others a other out' ∙ unfold update in rw not_fresh refl,
      nx,
    )
