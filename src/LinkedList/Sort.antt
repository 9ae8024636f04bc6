-- ===== src/LinkedList/Sort.antt =====
-- `list_sort`: exchanges of what the items hold, until none is out of order.
use mybmm.Base.{ℕ, zero, suc, Bool, false, Option, none, some, ◌==◌, if◌then◌else◌, ℤ, pos, negsuc}
use mybmm.LinkedList.{Handle}
use mybmm.LinkedList.Store.{Ptr, null, Item, Cmd, out_of_fuel, pure, ◌>>=◌, ◌>>◌, load, store}

-- `comp`, and the test `compare(ip1,ip2) == comp`
unfoldable pub is_comp : ℕ → ℤ → Bool
is_comp order (pos n) = if order == 0 then n == 1 else false
is_comp order (negsuc n) = if order == 0 then false else n == 0

-- The inner loop: the first item from `ip2` on that is to be exchanged with `ip1`, or null.
unfoldable pub find_swap : (Item → Item → ℤ) → ℕ → ℕ → Ptr → Ptr → Cmd Ptr
unfolding load is_comp
find_swap compare order zero ip1 ip2 = λ m. out_of_fuel
find_swap compare order (suc fuel) ip1 ip2 =
    let turn = load ip1 >>= λ n1. load ip2 >>= λ n2.
    (let rest = find_swap compare order fuel ip1 n2.next in
      if is_comp order (compare n1 n2) then pure ip2 else rest) in
    if ip2 == null then pure null else turn

-- "just swap the items"
unfoldable pub swap_items : Ptr → Ptr → Cmd (Unit {0})
unfolding load
swap_items ip1 ip2 = do
  n1 ← load ip1
  n2 ← load ip2
  store ip1 (record n1 { item = n2.item; size = n2.size })
  n2' ← load ip2
  store ip2 (record n2' { item = n1.item; size = n1.size })

-- the body of the outer loop: the item that it goes on with
unfoldable pub sort_turn : (Item → Item → ℤ) → ℕ → ℕ → Ptr → Cmd Ptr
unfolding find_swap swap_items load
sort_turn compare order fuel ip1 = do
  n1 ← load ip1
  ip2 ← find_swap compare order fuel ip1 n1.next
  if ip2 == null then pure n1.next else (do swap_items ip1 ip2; pure ip1)

-- `turns` bounds the outer loop and `fuel` each of the inner ones.
unfoldable pub sort_loop : (Item → Item → ℤ) → ℕ → ℕ → ℕ → Ptr → Cmd (Unit {0})
unfolding sort_turn
sort_loop compare order fuel zero ip1 = λ m. out_of_fuel
sort_loop compare order fuel (suc turns) ip1 =
    let turn = sort_turn compare order fuel ip1 >>= λ ip. sort_loop compare order fuel turns ip in
    if ip1 == null then pure tt else turn

-- `_compare`, of what `strcmp` says of the two strings.
unfoldable pub compare_strings : (Ptr → Ptr → ℤ) → Item → Item → ℤ
compare_strings strcmp a b = elim (strcmp a.item b.item) [
  | negsuc _ ↦ negsuc 0
  | pos n ↦ (if n == 0 then pos 0 else pos 1)
]

-- `compare`, or `_compare` for a null one.
pick : (Ptr → Ptr → ℤ) → Option (Item → Item → ℤ) → Item → Item → ℤ
unfolding compare_strings
pick strcmp none = compare_strings strcmp
pick strcmp (some compare) = compare

unfoldable pub list_sort : (Ptr → Ptr → ℤ) → ℕ → ℕ → Handle → Option (Item → Item → ℤ) → ℕ → Cmd ℤ
unfolding sort_loop pick
list_sort strcmp fuel turns none compare order = pure (negsuc 0)
list_sort strcmp fuel turns (some l) compare order = do
  sort_loop (pick strcmp compare) order fuel turns l.first
  pure (pos 0)
