-- ===== src/LinkedList.antt =====
-- list.c and list.h: the doubly linked list that the program keeps its packs, its modules and its
-- settings in.
--
-- An address is a number, `null` is 0. `struct _list` is a record that an operation returns anew; a
-- `list` that may be null is an `Option` of it. What `malloc` returns is an argument.
pub mod Store
pub mod Chain
pub mod Insert
pub mod Iterate
pub mod Delete
pub mod Copy
pub mod Sort
use mybmm.Base.{
  ℕ, zero, suc, Bool, true, false, Option, none, some, List, [], ◌∷◌, ◌==◌, if◌then◌else◌, ℤ, pos,
  negsuc,
}
use mybmm.LinkedList.Store.{
  Ptr, null, Item, Memory, Cmd, out_of_fuel, pure, ◌>>=◌, ◌>>◌, load, store, free, load_block,
  store_block, free_block,
}

-- `struct _list`; its `type` is not used.
pub record Lst : Type 0 where
  pub first : Ptr
  pub last : Ptr
  pub next : Ptr

abbrev pub Handle : Type 0
Handle = Option Lst

-- `_newitem`: `fresh` and `block` are what its calls of `malloc` return.
unfoldable pub new_item : Ptr → Ptr → Ptr → ℕ → Cmd Ptr
unfolding load_block store_block
new_item fresh block item size =
    if fresh == null
    then pure null
    else if size == 0
    then (do
      store fresh (record { item = item; size = size; prev = null; next = null })
      pure fresh)
    else if block == null
    then pure null
    else (do
      bytes ← load_block item size
      store_block block bytes
      store fresh (record { item = block; size = size; prev = null; next = null })
      pure fresh)

-- the part that links a new item to the end
unfoldable pub link_item : Lst → Ptr → Cmd Lst
unfolding load
link_item l new =
    if l.first == null then pure (record { first = new; last = new; next = new }) else (do
      ip ← load l.last
      store l.last (record ip { next = new })
      n ← load new
      store new (record n { prev = l.last })
      pure (record l { last = new }))

add_made : Lst → Ptr → Cmd (Ptr × Handle)
unfolding link_item load
add_made l new =
    if new == null
    then pure (null, some l)
    else do l' ← link_item l new; n ← load new; pure (n.item, some l')

unfoldable pub list_add : Ptr → Ptr → Handle → Ptr → ℕ → Cmd (Ptr × Handle)
unfolding new_item add_made
list_add fresh block none item size = pure (null, none)
list_add fresh block (some l) item size = do new ← new_item fresh block item size; add_made l new

-- Loops that follow the `next` pointers take fuel.
unfoldable pub count_loop : ℕ → Ptr → ℕ → Cmd ℕ
unfolding load
count_loop zero ip count = λ m. out_of_fuel
count_loop (suc fuel) ip count =
    let turn = load ip >>= λ n. count_loop fuel n.next (suc count) in
    if ip == null then pure count else turn

unfoldable pub list_count : ℕ → Handle → Cmd ℤ
unfolding count_loop
list_count fuel none = pure (negsuc 0)
list_count fuel (some l) = do n ← count_loop fuel l.first 0; pure (pos n)

-- `is_made` is whether `malloc` gives the memory.
unfoldable pub list_create : Bool → Handle
list_create is_made =
    if is_made then some (record { first = null; last = null; next = null }) else none

unfoldable pub list_get_next : Handle → Cmd (Ptr × Handle)
unfolding load
list_get_next none = pure (null, none)
list_get_next (some l) =
    if l.next == null
    then pure (null, some l)
    else do n ← load l.next; pure (n.item, some (record l { next = n.next }))

unfoldable pub list_is_next : Handle → ℤ
list_is_next none = negsuc 0
list_is_next (some l) = if l.next == null then pos 0 else pos 1

unfoldable pub list_reset : Handle → ℤ × Handle
list_reset none = (negsuc 0, none)
list_reset (some l) = (pos 0, some (record l { next = l.first }))

-- The loop of a client, `while((pp = list_get_next(l)) != 0)`: the items that it sees.
unfoldable pub walk : ℕ → Handle → Cmd (List Ptr × Handle)
walk zero l = λ m. out_of_fuel
walk (suc fuel) l = list_get_next l >>= λ (p, l').
    (let rest = walk fuel l' >>= λ (ps, l''). pure (p ∷ ps, l'') in
      if p == null then pure ([], l') else rest)

-- `if (prev) prev->next = next;` and `if (next) next->prev = prev;`
unfoldable pub set_next : Ptr → Ptr → Cmd (Unit {0})
unfolding load
set_next p q = if p == null then pure tt else do n ← load p; store p (record n { next = q })

unfoldable pub set_prev : Ptr → Ptr → Cmd (Unit {0})
unfolding load
set_prev p q = if p == null then pure tt else do n ← load p; store p (record n { prev = q })

-- the part of `list_delete` behind the test, with the item at `ip`
unfoldable pub unlink : Lst → Ptr → Item → Ptr → Cmd Lst
unfolding set_next set_prev free free_block
unlink l ip n item = do
  set_next n.prev n.next
  set_prev n.next n.prev
  free_block item
  free ip
  pure (record {
    first = if ip == l.first then n.next else l.first;
    last = if ip == l.last then n.prev else l.last;
    next = if ip == l.next then n.next else l.next;
  })

unfoldable pub delete_loop : ℕ → Lst → Ptr → Ptr → Cmd (ℤ × Handle)
unfolding unlink load
delete_loop zero l item ip = λ m. out_of_fuel
delete_loop (suc fuel) l item ip =
    let turn = load ip >>= λ n.
    (let rest = delete_loop fuel l item n.next in
      let hit = unlink l ip n item >>= λ l'. pure (pos 0, some l') in
      if item == n.item then hit else rest) in
    if ip == null then pure (pos 1, some l) else turn

unfoldable pub list_delete : ℕ → Handle → Ptr → Cmd (ℤ × Handle)
unfolding delete_loop
list_delete fuel none item = pure (negsuc 0, none)
list_delete fuel (some l) item = delete_loop fuel l item l.first

unfoldable pub destroy_loop : ℕ → Ptr → Cmd (Unit {0})
unfolding load free free_block
destroy_loop zero ip = λ m. out_of_fuel
destroy_loop (suc fuel) ip =
    let turn = load ip >>= λ n.
    (let rest = free ip >> destroy_loop fuel n.next in
      if n.size == 0 then rest else free_block n.item >> rest) in
    if ip == null then pure tt else turn

unfoldable pub list_destroy : ℕ → Handle → Cmd ℤ
unfolding destroy_loop
list_destroy fuel none = pure (negsuc 0)
list_destroy fuel (some l) = destroy_loop fuel l.first >> pure (pos 0)
