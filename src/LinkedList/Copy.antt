-- ===== src/LinkedList/Copy.antt =====
-- Copies of whole lists: `list_add_list` and `list_dup`.
use mybmm.Base.{Bool, ℕ, zero, suc, none, some, ◌==◌, if◌then◌else◌, ℤ, pos}
use mybmm.LinkedList.{Lst, Handle, list_add, list_create}
use mybmm.LinkedList.Store.{Ptr, null, Cmd, fault, out_of_fuel, pure, ◌>>=◌, load}

-- `fresh i` are the addresses that `malloc` gives to the `i`th item and its copy.
unfoldable pub copy_loop : (ℕ → Ptr × Ptr) → ℕ → ℕ → Handle → Ptr → Cmd Handle
unfolding list_add load
copy_loop fresh zero i l ip = λ m. out_of_fuel
copy_loop fresh (suc fuel) i l ip =
    let turn = load ip >>= λ n. list_add (fresh i).0 (fresh i).1 l n.item n.size >>= λ (_, l').
    load ip >>= λ n'. copy_loop fresh fuel (suc i) l' n'.next in
    if ip == null then pure l else turn

-- What is returned, and the first list. (A null `lp2` is a fault.)
unfoldable pub list_add_list : (ℕ → Ptr × Ptr) → ℕ → Handle → Handle → Cmd (ℤ × Handle)
unfolding copy_loop
list_add_list fresh fuel none l2 = pure (pos 1, none)
list_add_list fresh fuel (some l) none = λ m. fault
list_add_list fresh fuel (some l) (some l2) = do
  l' ← copy_loop fresh fuel 0 (some l) l2.first
  pure (pos 0, l')

-- behind the creation of the new list
dup_into : (ℕ → Ptr × Ptr) → ℕ → Lst → Handle → Cmd Handle
unfolding copy_loop
dup_into fresh fuel l none = pure none
dup_into fresh fuel l (some new) = copy_loop fresh fuel 0 (some new) l.first

-- The new list; `is_made` is whether there is memory for it.
unfoldable pub list_dup : Bool → (ℕ → Ptr × Ptr) → ℕ → Handle → Cmd Handle
unfolding dup_into list_create
list_dup is_made fresh fuel none = pure none
list_dup is_made fresh fuel (some l) = dup_into fresh fuel l (list_create is_made)
