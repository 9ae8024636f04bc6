-- ===== src/LinkedList/Store.antt =====
-- The memory of the lists: the items at their addresses, the blocks of bytes that they own, and
-- commands that read and write them.
use mybmm.Base.{ℕ, Option, none, some, List, length, take, leb, ◌==◌, if◌then◌else◌}

abbrev pub Ptr : Type 0
Ptr = ℕ

abbrev pub null : Ptr
null = 0

-- `struct _list_item`
pub record Item : Type 0 where
  pub item : Ptr
  pub size : ℕ
  pub prev : Ptr
  pub next : Ptr

pub record Memory : Type 0 where
  pub items : Ptr → Option Item
  pub blocks : Ptr → Option (List ℕ)

-- A run ends with a value, touches memory that is not allocated, or has used up its fuel.
pub data Run (A : Type 0) : Type 0 where
  done : A → Memory → Run A
  fault : Run A
  out_of_fuel : Run A

abbrev pub Cmd : Type 0 → Type 0
Cmd A = Memory → Run A

abbrev pub pure : {A : Type 0} → A → Cmd A
pure a m = done a m

abbrev pub next_run : {A B : Type 0} → Run A → (A → Cmd B) → Run B
next_run (done a m) f = f a m
next_run fault f = fault
next_run out_of_fuel f = out_of_fuel

infixl 5 ◌>>=◌ ◌>>◌
abbrev pub ◌>>=◌ : {A B : Type 0} → Cmd A → (A → Cmd B) → Cmd B
◌>>=◌ c f m = next_run (c m) f

abbrev pub ◌>>◌ : {A B : Type 0} → Cmd A → Cmd B → Cmd B
◌>>◌ c d m = next_run (c m) (λ _. d)

-- a map with another value at one address
unfoldable pub update : {A : Type 0} → (Ptr → Option A) → Ptr → Option A → Ptr → Option A
update f p v a = if a == p then v else f a

-- a read of an address, a fault at `null` and where no item is
unfoldable pub load : Ptr → Cmd Item
load p m = if p == null then fault else elim (m.items p) [ none ↦ fault | some n ↦ done n m ]

-- a write to an address that `malloc` has given or that has been read
abbrev pub put : Ptr → Option Item → Cmd (Unit {0})
put p v m = done tt (record m { items = update m.items p v })

abbrev pub store : Ptr → Item → Cmd (Unit {0})
store p n = put p (some n)

unfoldable pub free : Ptr → Cmd (Unit {0})
unfolding load
free p m = next_run (load p m) (λ _. put p none)

-- `memcpy` from a block
unfoldable pub load_block : Ptr → ℕ → Cmd (List ℕ)
load_block p size m = elim (m.blocks p) [
  | none ↦ fault
  | some bytes ↦ (if leb size (length bytes) then done (take size bytes) m else fault)
]

unfoldable pub store_block : Ptr → List ℕ → Cmd (Unit {0})
store_block p bytes m = done tt (record m { blocks = update m.blocks p (some bytes) })

-- `free` of a block, which does nothing at `null` and is a fault where no block is
unfoldable pub free_block : Ptr → Cmd (Unit {0})
free_block p m = if p == null then done tt m else elim (m.blocks p) [
  | none ↦ fault
  | some bytes ↦ done tt (record m { blocks = update m.blocks p none })
]
