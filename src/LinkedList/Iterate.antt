-- ===== src/LinkedList/Iterate.antt =====
-- What is read from a list: its length, and its items one after the other.
use mybmm.Base.{
  ℕ, zero, suc, ◌+◌, ◌<◌, ◌≡◌, ◌≢◌, refl, sym, ap, subst, ◌∙◌, true, false, some, List, [], ◌∷◌,
  ◌++◌, append_assoc, map, ◌==◌, arith, All, length, pos,
}
use mybmm.LinkedList.{Lst, count_loop, list_count, list_get_next, list_reset, walk}
use mybmm.LinkedList.Store.{Ptr, null, Memory, done}
use mybmm.LinkedList.Chain.{Cell, first_of, IsChain, IsList, IsChain-split, load-done}

count_loop-length :
    (m : Memory) (fuel : ℕ) (prev : Ptr) (cs : List Cell) (count : ℕ)
    → IsChain m.items prev null cs
    → length cs < fuel
    → count_loop fuel (first_of null cs) count m ≡ done (count + length cs) m
unfolding count_loop
count_loop-length m zero prev cs count ch enough = absurd (omega arith)
count_loop-length m (suc fuel) prev [] count ch enough = ap (λ n. done n m) (omega arith)
count_loop-length m (suc fuel) prev (c ∷ cs) count (nn, e, rest) enough =
    let there : (c.at == null) ≡ false = ground arith in
    rw (there, load-done m c.at _ nn e)
      (count_loop-length m fuel c.at cs (suc count) rest (omega arith)
        ∙ ap (λ n. done n m) (omega arith))

-- `list_count` gives the number of items, with more fuel than that, and changes nothing.
pub list_count-length :
    (m : Memory) (l : Lst) (cs : List Cell) (fuel : ℕ)
    → IsList m l cs
    → length cs < fuel
    → list_count fuel (some l) m ≡ done (pos (length cs)) m
unfolding list_count
list_count-length m l cs fuel is enough =
    rw (is.first, count_loop-length m fuel null cs 0 is.chain enough)
      (ap (λ n. done (pos n) m) (omega arith))

list_get_next-item :
    (m : Memory) (l : Lst) (xs : List Cell) (c : Cell) (ys : List Cell)
    → IsChain m.items null null (xs ++ c ∷ ys)
    → l.next ≡ c.at
    → list_get_next (some l) m ≡ done (c.item, some (record l { next = first_of null ys })) m
unfolding list_get_next
list_get_next-item m l xs c ys ch at =
    let (nn, e, _) = (IsChain-split m.items null null xs (c ∷ ys) ch).1 in
    let there : (l.next == null) ≡ false = ground arith in
    rw (there, load-done m l.next _ (λ z. nn (sym at ∙ z)) (ap m.items at ∙ e))

list_get_next_end :
    (m : Memory) (l : Lst) → l.next ≡ null → list_get_next (some l) m ≡ done (null, some l) m
unfolding list_get_next
list_get_next_end m l at = let none_left : (l.next == null) ≡ true = ground arith in rw none_left

abbrev pub HasItem : Cell → Type 0
HasItem c = c.item ≢ null

walk-items :
    (m : Memory) (fuel : ℕ) (l : Lst) (xs ys : List Cell)
    → IsChain m.items null null (xs ++ ys)
    → All HasItem ys
    → l.next ≡ first_of null ys
    → length ys < fuel
    → walk fuel (some l) m ≡ done (map (λ c. c.item) ys, some (record l { next = null })) m
unfolding walk
walk-items m zero l xs ys ch full at enough = absurd (omega arith)
walk-items m (suc fuel) l xs [] ch full at enough =
    rw (list_get_next_end m l at) (ap (λ q. done ([], some (record l { next = q })) m) at)
walk-items m (suc fuel) l xs (c ∷ ys) ch (nn, full) at enough =
    let some_item : (c.item == null) ≡ false = ground arith in
    rw (
      list_get_next-item m l xs c ys ch at,
      some_item,
      walk-items m fuel (record l { next = first_of null ys }) (xs ++ c ∷ []) ys
          (subst (IsChain m.items null null) (sym (append_assoc xs (c ∷ []) ys)) ch) full refl
          (omega arith),
    )

-- Behind `list_reset`, the loop over a list without null items sees the items in their order,
-- each once, and ends; it changes only which item is the next, of which none is left.
pub list_reset-walk :
    (m : Memory) (l : Lst) (cs : List Cell) (fuel : ℕ)
    → IsList m l cs
    → All HasItem cs
    → length cs < fuel
    → ((list_reset (some l)).0 ≡ pos 0)
      × (walk fuel (list_reset (some l)).1 m
          ≡ done (map (λ c. c.item) cs, some (record l { next = null })) m)
unfolding list_reset
list_reset-walk m l cs fuel is full enough =
    (refl, walk-items m fuel (record l { next = l.first }) [] cs is.chain full is.first enough)
