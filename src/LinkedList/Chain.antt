-- ===== src/LinkedList/Chain.antt =====
-- What a list stands for: the addresses of its items in order, each with what it holds.
use mybmm.Base.{
  ℕ, ◌≡◌, ◌≢◌, refl, ap, ◌∙◌, Bool, true, false, ◌||◌, Option, none, some, List, [], ◌∷◌, ◌++◌,
  ◌==◌, ◌≤◌, leb, length, take, arith, Bool-cases, inl, inr,
}
use mybmm.LinkedList.{Lst}
use mybmm.LinkedList.Store.{Ptr, null, Item, Memory, done, update, load, load_block}

pub record Cell : Type 0 where
  pub at : Ptr
  pub item : Ptr
  pub size : ℕ

-- the address of the first and of the last cell, or what stands behind and in front of them
abbrev pub first_of : Ptr → List Cell → Ptr
first_of stop [] = stop
first_of stop (c ∷ cs) = c.at

abbrev pub last_of : Ptr → List Cell → Ptr
last_of prev [] = prev
last_of prev (c ∷ cs) = last_of c.at cs

abbrev pub has : Ptr → List Cell → Bool
has a [] = false
has a (c ∷ cs) = (a == c.at) || has a cs

abbrev pub IsDistinct : List Cell → Type 0
IsDistinct [] = Unit {0}
IsDistinct (c ∷ cs) = (has c.at cs ≡ false) × IsDistinct cs

abbrev pub Map : Type 0
Map = Ptr → Option Item

abbrev pub item_of : Cell → Ptr → Ptr → Item
item_of c prev next = record { item = c.item; size = c.size; prev = prev; next = next }

-- The cells are linked in both directions, from `prev` to `stop`.
abbrev pub IsChain : Map → Ptr → Ptr → List Cell → Type 0
IsChain h prev stop [] = Unit {0}
IsChain h prev stop (c ∷ cs) =
    (c.at ≢ null) × (h c.at ≡ some (item_of c prev (first_of stop cs))) × IsChain h c.at stop cs

-- A list whose items are the cells, with the next one at `next`.
pub record IsList (m : Memory) (l : Lst) (cs : List Cell) : Type 0 where
  pub chain : IsChain m.items null null cs
  pub distinct : IsDistinct cs
  pub first : l.first ≡ first_of null cs
  pub last : l.last ≡ last_of null cs

pub has-append : (a : Ptr) (xs ys : List Cell) → has a (xs ++ ys) ≡ (has a xs || has a ys)
has-append a [] ys = refl
has-append a (x ∷ xs) ys = ground (arith, has-append a xs ys)

pub last_of-snoc : (prev : Ptr) (cs : List Cell) (c : Cell) → last_of prev (cs ++ c ∷ []) ≡ c.at
last_of-snoc prev [] c = refl
last_of-snoc prev (x ∷ cs) c = last_of-snoc x.at cs c

pub last_of-append :
    (prev : Ptr) (xs ys : List Cell) → last_of prev (xs ++ ys) ≡ last_of (last_of prev xs) ys
last_of-append prev [] ys = refl
last_of-append prev (x ∷ xs) ys = last_of-append x.at xs ys

pub has-last_of : (c : Cell) (cs : List Cell) → has (last_of c.at cs) (c ∷ cs) ≡ true
has-last_of c [] = ground arith
has-last_of c (c' ∷ cs) = ground (arith, has-last_of c' cs)

pub apart_sym :
    (xs ys : List Cell)
    → ((a : Ptr) → has a xs ≡ true → has a ys ≡ false)
    → (a : Ptr) → has a ys ≡ true
    → has a xs ≡ false
apart_sym xs ys apart a i = elim (Bool-cases (has a xs)) [
  | inl j ↦ absurd (ground (arith, apart a j))
  | inr o ↦ o
]

pub has-ne : (a b : Ptr) (cs : List Cell) → has a cs ≡ false → has b cs ≡ true → (a == b) ≡ false
has-ne a b cs out mem = elim (Bool-cases (a == b)) [
  | inl same ↦ let s : a ≡ b = ground arith in absurd (cc (ap (λ z. has z cs) s, out, mem))
  | inr other ↦ other
]

pub IsDistinct-append :
    (xs ys : List Cell)
    → IsDistinct xs
    → IsDistinct ys
    → ((a : Ptr) → has a xs ≡ true → has a ys ≡ false)
    → IsDistinct (xs ++ ys)
IsDistinct-append [] ys dx dy apart = dy
IsDistinct-append (x ∷ xs) ys (out, dx) dy apart = (
  ground (arith, has-append x.at xs ys, apart x.at),
  IsDistinct-append xs ys dx dy (λ a i. apart a (ground arith)),
)

pub IsDistinct-split :
    (xs ys : List Cell)
    → IsDistinct (xs ++ ys)
    → IsDistinct xs × IsDistinct ys × ((a : Ptr) → has a xs ≡ true → has a ys ≡ false)
IsDistinct-split [] ys d = (tt, d, λ a i. cc)
IsDistinct-split (x ∷ xs) ys (out, d) =
    let (dx, dy, apart) = IsDistinct-split xs ys d in
    (
      (ground (arith, has-append x.at xs ys), dx),
      dy,
      λ a i. elim (Bool-cases (a == x.at)) [
        | inl here ↦
            let s : a ≡ x.at = ground arith in
            ap (λ z. has z ys) s ∙ ground (arith, has-append x.at xs ys)
        | inr other ↦ apart a (ground arith)
      ],
    )

-- A chain survives a change elsewhere.
pub IsChain-frame :
    (h g : Map) (prev stop : Ptr) (cs : List Cell)
    → ((a : Ptr) → has a cs ≡ true → g a ≡ h a)
    → IsChain h prev stop cs
    → IsChain g prev stop cs
IsChain-frame h g prev stop [] same tt = tt
IsChain-frame h g prev stop (c ∷ cs) same (nn, e, rest) = (
  nn,
  same c.at (ground arith) ∙ e,
  IsChain-frame h g c.at stop cs (λ a i. same a (ground arith)) rest,
)

pub IsChain-split :
    (h : Map) (prev stop : Ptr) (xs ys : List Cell)
    → IsChain h prev stop (xs ++ ys)
    → IsChain h prev (first_of stop ys) xs × IsChain h (last_of prev xs) stop ys
IsChain-split h prev stop [] ys ch = (tt, ch)
IsChain-split h prev stop (x ∷ []) ys (nn, e, rest) = ((nn, e, tt), rest)
IsChain-split h prev stop (x ∷ (y ∷ xs)) ys (nn, e, rest) =
    let (front, back) = IsChain-split h x.at stop (y ∷ xs) ys rest in ((nn, e, front), back)

pub IsChain-append :
    (h : Map) (prev stop : Ptr) (xs ys : List Cell)
    → IsChain h prev (first_of stop ys) xs
    → IsChain h (last_of prev xs) stop ys
    → IsChain h prev stop (xs ++ ys)
IsChain-append h prev stop [] ys front back = back
IsChain-append h prev stop (x ∷ []) ys (nn, e, tt) back = (nn, e, back)
IsChain-append h prev stop (x ∷ (y ∷ xs)) ys (nn, e, front) back =
    (nn, e, IsChain-append h x.at stop (y ∷ xs) ys front back)

-- An address where nothing is belongs to no cell.
pub unused_has :
    (h : Map) (prev stop a : Ptr) (cs : List Cell)
    → IsChain h prev stop cs
    → h a ≡ none
    → has a cs ≡ false
unused_has h prev stop a [] ch e = refl
unused_has h prev stop a (c ∷ cs) (nn, f, rest) e =
    ground (arith, unused_has h c.at stop a cs rest e, ap h)

pub load-done :
    (m : Memory) (p : Ptr) (n : Item) → p ≢ null → m.items p ≡ some n → load p m ≡ done n m
unfolding load
load-done m p n nn e = let test : (p == null) ≡ false = ground arith in rw (test, e)

pub load_block-done :
    (m : Memory) (p : Ptr) (size : ℕ) (bytes : List ℕ)
    → m.blocks p ≡ some bytes
    → size ≤ length bytes
    → load_block p size m ≡ done (take size bytes) m
unfolding load_block
load_block-done m p size bytes e fits =
    let long : leb size (length bytes) ≡ true = ground arith in rw (e, load_block) (rw long)

-- The last cell of a chain, and the chain with another successor behind it.
pub IsChain-last :
    (h : Map) (prev stop : Ptr) (c : Cell) (cs : List Cell)
    → IsDistinct (c ∷ cs)
    → IsChain h prev stop (c ∷ cs)
    → (n : Item) × (h (last_of prev (c ∷ cs)) ≡ some n)
      × (n.next ≡ stop)
      × (last_of prev (c ∷ cs) ≢ null)
      × (has (last_of prev (c ∷ cs)) (c ∷ cs) ≡ true)
      × ((q : Ptr)
          → IsChain
              (update h (last_of prev (c ∷ cs)) (some (record n { next = q })))
              prev
              q
              (c ∷ cs))
unfolding update
IsChain-last h prev stop c [] d (nn, e, tt) =
    (item_of c prev stop, e, refl, nn, ground arith, λ q. (nn, ground arith, tt))
IsChain-last h prev stop c (c' ∷ cs) (out, d) (nn, e, rest) =
    let (n, f, s, nn', mem, change) = IsChain-last h c.at stop c' cs d rest in
    let other : (c.at == last_of c'.at cs) ≡ false =
      has-ne c.at (last_of c'.at cs) (c' ∷ cs) out mem in
    (n, f, s, nn', ground arith, λ q. (nn, rw other e, change q))
