-- ===== src/Tests/LinkedLists.antt =====
-- Lists of three items in a small memory.
use mybmm.Base.{
  ℕ, ◌+◌, ◌≡◌, ◌≢◌, refl, false, true, none, some, List, [], ◌∷◌, ◌++◌, ◌==◌, arith, if◌then◌else◌,
  ℤ, pos, negsuc, leb,
}
use mybmm.LinkedList.{
  Lst, list_add, list_count, list_create, list_get_next, list_reset, list_delete, walk,
}
use mybmm.LinkedList.Store.{
  Ptr, null, Item, Memory, Run, done, fault, out_of_fuel, ◌>>=◌, ◌>>◌, update,
}
use mybmm.LinkedList.Chain.{Cell, IsList, has}
use mybmm.LinkedList.Insert.{copied, list_add-append}
use mybmm.LinkedList.Iterate.{list_reset-walk}
use mybmm.LinkedList.Delete.{IsWithout, list_delete-IsWithout}
use mybmm.LinkedList.Copy.{list_dup}
use mybmm.LinkedList.Sort.{list_sort}

abbrev node : Ptr → Ptr → Ptr → Item
node item prev next = record { item = item; size = 0; prev = prev; next = next }

-- Items at 10, 11 and 12, with what they hold at 23, 21 and 22.
abbrev three : Memory
three = record {
  items = λ p.
      if p == 10
      then some (node 23 0 11)
      else if p == 11
      then some (node 21 10 12)
      else if p == 12
      then some (node 22 11 0)
      else none;
  blocks = λ p. if p == 21 then some (5 ∷ 6 ∷ []) else if p == 22 then some (7 ∷ 8 ∷ []) else none;
}

abbrev abc : Lst
abc = record { first = 10; last = 12; next = 11 }

abbrev cell : Ptr → Ptr → Cell
cell at item = record { at = at; item = item; size = 0 }

abbrev cells : List Cell
cells = cell 10 23 ∷ cell 11 21 ∷ cell 12 22 ∷ []

abc-IsList : IsList three abc cells
abc-IsList = record {
  chain = (ground arith, refl, (ground arith, refl, (ground arith, refl, tt)));
  distinct = (refl, (refl, (refl, tt)));
  first = refl;
  last = refl;
}

abbrev seen : {A : Type 0} → Run (List Ptr × A) → List Ptr
seen (done (ps, l) m) = ps
seen fault = []
seen out_of_fuel = []

abbrev by_item : Item → Item → ℤ
by_item a b = if a.item == b.item then pos 0 else if leb a.item b.item then negsuc 0 else pos 1

sorted :
    seen (
      (list_sort (λ a b. pos 0) 9 20 (some abc) (some by_item) 0
          >> walk 9 (list_reset (some abc)).1)
        three)
    ≡ 21 ∷ 22 ∷ 23 ∷ []
unfolding list_sort walk list_reset update list_get_next
sorted = refl

duplicated :
    seen
      ((list_dup true (λ i. (30 + i, 40 + i)) 9 (some abc) >>= λ l. walk 9 (list_reset l).1) three)
    ≡ 23 ∷ 21 ∷ 22 ∷ []
unfolding list_dup walk list_reset update list_get_next list_create
duplicated = refl

counted : list_count 4 (some abc) three ≡ done (pos 3) three
unfolding list_count
counted = refl

no_list : list_count 4 none three ≡ done (negsuc 0) three
unfolding list_count
no_list = refl

-- An item of size 0 that the list does not own, and that is not on the heap, is freed all the same.
deleted_shared : list_delete 9 (some abc) 23 three ≡ fault
unfolding list_delete
deleted_shared = refl

list_add-append_example :
    (m' : Memory) × (l' : Lst) × (list_add 13 33 (some abc) 22 1 three ≡ done (33, some l') m')
    × IsList m' l' (cells ++ (record { at = 13; item = 33; size = 1 }) ∷ [])
    × (m'.blocks ≡ update three.blocks 33 (some (7 ∷ [])))
    × ((a : ℕ) → a ≢ 13 → has a cells ≡ false → m'.items a ≡ three.items a)
    × (l'.next ≡ (if abc.first == null then 13 else abc.next))
list_add-append_example =
    list_add-append three abc cells 13 33 22 1 abc-IsList (ground arith) refl
      (copied (ground arith) (ground arith) refl (omega arith))

list_reset-walk_example :
    ((list_reset (some abc)).0 ≡ pos 0)
    × (walk 4 (list_reset (some abc)).1 three
        ≡ done (23 ∷ 21 ∷ 22 ∷ [], some (record abc { next = null })) three)
list_reset-walk_example =
    list_reset-walk three abc cells 4 abc-IsList (ground arith, (ground arith, (ground arith, tt)))
      (omega arith)

list_delete-IsWithout_example :
    (m' : Memory) × (l' : Lst) × (list_delete 4 (some abc) 21 three ≡ done (pos 0, some l') m')
    × IsWithout three abc (cell 10 23 ∷ []) (cell 11 21) (cell 12 22 ∷ []) 21 m' l'
list_delete-IsWithout_example =
    list_delete-IsWithout three abc 4 (cell 10 23 ∷ []) (cell 11 21) (cell 12 22 ∷ []) abc-IsList
      (refl, tt) (omega arith) (ground arith) (5 ∷ 6 ∷ [], refl)
