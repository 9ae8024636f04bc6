-- ===== src/Modules.antt =====
-- module.c and module.h: the list of the modules that are loaded, and how one is found by its name.
--
-- A list of list.c is the sequence that it stands for. The module is looked up as a symbol of the program, as without
-- `STATIC_MODULES`, which no file of the build sets.
pub mod Once
use mybmm.Base.{
  ℕ, ◌≡◌, refl, ap, ◌∙◌, sym, Bool, true, false, ◌&&◌, Option, none, some, ◌>>=◌, List, [], ◌∷◌,
  ◌++◌, ◌==◌, ltb, length, if◌then◌else◌, ℤ, pos, is_zero, arith, Bool-cases, Option-cases, inl,
  inr,
}
use mybmm.Strings.{same_string}

-- `enum MYBMM_MODTYPE`
abbrev pub inverter_type : ℕ
inverter_type = 0

abbrev pub cellmon_type : ℕ
cellmon_type = 1

abbrev pub transport_type : ℕ
transport_type = 2

-- The fields of `struct mybmm_module` that are read when it is loaded; `init` is null or works on a state `World`,
-- which is what the modules have outside of the list.
pub record Module (World : Type 0) : Type 0 where
  pub kind : ℕ
  pub name : List ℕ
  pub capabilities : ℕ
  pub init : Option (World → ℤ × World)

-- "%s_module", in an array of 128 bytes
unfoldable pub symbol_name : List ℕ → Option (List ℕ)
symbol_name name =
    let temp = name ++ 95 ∷ 109 ∷ 111 ∷ 100 ∷ 117 ∷ 108 ∷ 101 ∷ [] in
    if ltb (length temp) 128 then some temp else none

module _ {World : Type 0} where
  unfoldable pub is_module : List ℕ → ℕ → Module World → Bool
  unfolding same_string
  is_module name kind mp = same_string mp.name name && mp.kind == kind

  unfoldable pub mybmm_get_module : List (Module World) → List ℕ → ℕ → Option (Module World)
  unfolding is_module
  mybmm_get_module [] name kind = none
  mybmm_get_module (mp ∷ mps) name kind =
      let rest = mybmm_get_module mps name kind in if is_module name kind mp then some mp else rest

  unfoldable pub call_init : Option (World → ℤ × World) → World → ℤ × World
  call_init none w = (pos 0, w)
  call_init (some init) w = init w

  -- the part behind the search for the symbol
  unfoldable pub add_module :
      List (Module World)
      → World
      → Option (Module World)
      → Option (Module World) × List (Module World) × World
  unfolding call_init
  add_module mps w none = (none, mps, w)
  add_module mps w (some mp) =
      let (r, w') = call_init mp.init w in
      if is_zero r then (some mp, mps ++ mp ∷ [], w') else (none, mps, w')

  unfoldable pub load_symbol :
      (List ℕ → Option (Module World))
      → List (Module World)
      → World
      → List ℕ
      → Option (Option (Module World) × List (Module World) × World)
  unfolding symbol_name add_module
  load_symbol dlsym mps w name = do temp ← symbol_name name; some (add_module mps w (dlsym temp))

  -- What is returned, the list and the state. `dlsym` is the function of the system, on the name of the
  -- symbol; `none` is a write behind an array.
  unfoldable pub mybmm_load_module :
      (List ℕ → Option (Module World))
      → List (Module World)
      → World
      → List ℕ
      → ℕ
      → Option (Option (Module World) × List (Module World) × World)
  unfolding mybmm_get_module load_symbol
  mybmm_load_module dlsym mps w name kind = elim (mybmm_get_module mps name kind) [
    | some mp ↦ some (some mp, mps, w)
    | none ↦ load_symbol dlsym mps w name
  ]

  get_module-here :
      (mp : Module World) (mps : List (Module World)) (name : List ℕ) (kind : ℕ)
      → is_module name kind mp ≡ true
      → mybmm_get_module (mp ∷ mps) name kind ≡ some mp
  unfolding mybmm_get_module
  get_module-here mp mps name kind h = rw h refl

  get_module-there :
      (mp : Module World) (mps : List (Module World)) (name : List ℕ) (kind : ℕ)
      → is_module name kind mp ≡ false
      → mybmm_get_module (mp ∷ mps) name kind ≡ mybmm_get_module mps name kind
  unfolding mybmm_get_module
  get_module-there mp mps name kind h = rw h refl

  -- what another module behind the others changes
  get_module-append :
      (mps : List (Module World)) (mp : Module World) (name : List ℕ) (kind : ℕ)
      → mybmm_get_module (mps ++ mp ∷ []) name kind ≡ elim (mybmm_get_module mps name kind) [
        | some m ↦ some m
        | none ↦ if is_module name kind mp then some mp else none
      ]
  unfolding mybmm_get_module
  get_module-append [] mp name kind = refl
  get_module-append (m ∷ mps) mp name kind = elim (Bool-cases (is_module name kind m)) [
    | inl h ↦ rw h refl
    | inr h ↦ rw h (get_module-append mps mp name kind)
  ]
