-- ===== src/Modules/Once.antt =====
-- That a module is initialised and listed once.
use mybmm.Base.{
  ℕ, ◌≡◌, refl, sym, ap, ap₂, subst, ◌∙◌, true, Option, none, some, List, [], ◌∷◌, ◌++◌, ◌==◌,
  arith, is_zero, if◌then◌else◌, Bool-cases, Option-cases, inl, inr, bind-eq-some,
}
use mybmm.Strings.{same_string, same_string_eq, same_string_refl}
use mybmm.Modules.{
  Module, is_module, mybmm_get_module, symbol_name, add_module, mybmm_load_module, load_symbol,
  call_init, get_module-here, get_module-there, get_module-append,
}

module _ {World : Type 0} where
  -- No two modules have the same name and type.
  unfoldable pub AreDistinct : List (Module World) → Type 0
  AreDistinct [] = Unit
  AreDistinct (m ∷ ms) = (mybmm_get_module ms m.name m.kind ≡ none) × AreDistinct ms

  abbrev or_this : Module World → List ℕ → ℕ → Option (Module World) → Option (Module World)
  or_this mp name kind none = if is_module name kind mp then some mp else none
  or_this mp name kind (some m) = some m

  get_module-or_this :
      (mps : List (Module World)) (mp : Module World) (name : List ℕ) (kind : ℕ)
      → mybmm_get_module (mps ++ mp ∷ []) name kind
        ≡ or_this mp name kind (mybmm_get_module mps name kind)
  get_module-or_this mps mp name kind = elim (Option-cases (mybmm_get_module mps name kind)) [
    | inl e ↦ get_module-append mps mp name kind ∙ rw e refl
    | inr (m, e) ↦ get_module-append mps mp name kind ∙ rw e refl
  ]

  -- A module has one name and one type.
  is_module-eq :
      (mp : Module World) (n n2 : List ℕ) (k k2 : ℕ)
      → is_module n k mp ≡ true
      → is_module n2 k2 mp ≡ true
      → (n ≡ n2) × (k ≡ k2)
  unfolding is_module
  is_module-eq mp n n2 k k2 h h2 = (
    sym (same_string_eq mp.name n (ground arith)) ∙ same_string_eq mp.name n2 (ground arith),
    ground arith,
  )

  is_module-own : (mp : Module World) → is_module mp.name mp.kind mp ≡ true
  unfolding is_module
  is_module-own mp =
      let kinds : (mp.kind == mp.kind) ≡ true = ground arith in
      rw (same_string_refl mp.name, kinds) refl

  is_module-swap :
      (a b : Module World) → is_module a.name a.kind b ≡ true → is_module b.name b.kind a ≡ true
  unfolding is_module
  is_module-swap a b h =
      let same : b.name ≡ a.name = same_string_eq b.name a.name (ground arith) in
      let there : same_string a.name b.name ≡ true =
        ap (λ n. same_string n b.name) (sym same) ∙ same_string_refl b.name in
      let kinds : (a.kind == b.kind) ≡ true = ground arith in rw (there, kinds) refl

  AreDistinct-append :
      (mps : List (Module World)) (mp : Module World)
      → AreDistinct mps
      → mybmm_get_module mps mp.name mp.kind ≡ none
      → AreDistinct (mps ++ mp ∷ [])
  unfolding AreDistinct mybmm_get_module
  AreDistinct-append [] mp d e = (refl, tt)
  AreDistinct-append (m ∷ mps) mp (fresh, d) e = elim (Bool-cases (is_module mp.name mp.kind m)) [
    | inl h ↦ absurd (cc (get_module-here m mps mp.name mp.kind h, e))
    | inr h ↦ elim (Bool-cases (is_module m.name m.kind mp)) [
      | inl h2 ↦ absurd (cc (is_module-swap m mp h2, h))
      | inr h2 ↦ (
        get_module-or_this mps mp m.name m.kind ∙ rw (fresh, h2) refl,
        AreDistinct-append mps mp d (sym (get_module-there m mps mp.name mp.kind h) ∙ e),
      )
    ]
  ]

  add_module-new :
      (mps mps' : List (Module World)) (w w' : World) (found : Option (Module World))
      (mp : Module World)
      → add_module mps w found ≡ (some mp, mps', w')
      → mps' ≡ mps ++ mp ∷ []
  unfolding add_module
  add_module-new mps mps' w w' none mp e = absurd (ground arith)
  add_module-new mps mps' w w' (some m) mp e = elim (Bool-cases (is_zero (call_init m.init w).0)) [
    | inl z ↦
        let made : add_module mps w (some m) ≡ (some m, mps ++ m ∷ [], (call_init m.init w).1) =
          rw z refl in
        cc (e, made)
    | inr z ↦
        let made : add_module mps w (some m) ≡ (none, mps, (call_init m.init w).1) = rw z refl in
        absurd (cc (e, made))
  ]

  load_module-new :
      (dlsym : List ℕ → Option (Module World)) (mps mps' : List (Module World)) (w w' : World)
      (name : List ℕ) (kind : ℕ) (mp : Module World)
      → mybmm_get_module mps name kind ≡ none
      → mybmm_load_module dlsym mps w name kind ≡ some (some mp, mps', w')
      → mps' ≡ mps ++ mp ∷ []
  unfolding load_symbol mybmm_load_module
  load_module-new dlsym mps mps' w w' name kind mp e l =
      let made : mybmm_load_module dlsym mps w name kind ≡ load_symbol dlsym mps w name =
        rw (mybmm_load_module, e) refl in
      let (temp, _, added) =
        bind-eq-some (symbol_name name) (λ temp. some (add_module mps w (dlsym temp)))
          (sym made ∙ l) in
      add_module-new mps mps' w w' (dlsym temp) mp (cc added)

  load_module-there :
      (dlsym : List ℕ → Option (Module World)) (mps : List (Module World)) (w : World)
      (name : List ℕ) (kind : ℕ) (mp : Module World)
      → mybmm_get_module mps name kind ≡ some mp
      → mybmm_load_module dlsym mps w name kind ≡ some (some mp, mps, w)
  unfolding mybmm_load_module
  load_module-there dlsym mps w name kind mp e = rw (mybmm_load_module, e) refl

  -- A module that is listed already adds nothing to what is found.
  or_listed :
      (mps : List (Module World)) (mp : Module World) (n n2 : List ℕ) (k k2 : ℕ)
      → mybmm_get_module mps n k ≡ some mp
      → is_module n k mp ≡ true
      → mybmm_get_module mps n2 k2 ≡ or_this mp n2 k2 (mybmm_get_module mps n2 k2)
  or_listed mps mp n n2 k k2 e h = elim (Option-cases (mybmm_get_module mps n2 k2)) [
    | inl e2 ↦ elim (Bool-cases (is_module n2 k2 mp)) [
      | inl h2 ↦
          let (names, kinds) = is_module-eq mp n n2 k k2 h h2 in
          absurd (cc (ap₂ (mybmm_get_module mps) names kinds, e, e2))
      | inr h2 ↦ rw (e2, h2) refl
    ]
    | inr (m, e2) ↦ rw e2 refl
  ]

  -- Where `mybmm_load_module` returns a module that has the name and the type it was asked for, and the list had no two
  -- modules of a same name and type, the list has none afterwards. It is then found under that name and type, what was
  -- listed is found as before, and another load returns the same module, neither initialised nor listed again.
  pub mybmm_load_module-once :
      (dlsym : List ℕ → Option (Module World)) (mps mps' : List (Module World)) (w w' w2 : World)
      (name : List ℕ) (kind : ℕ) (mp : Module World) (name2 : List ℕ) (kind2 : ℕ)
      → AreDistinct mps
      → is_module name kind mp ≡ true
      → mybmm_load_module dlsym mps w name kind ≡ some (some mp, mps', w')
      → AreDistinct mps'
        × (mybmm_get_module mps' name kind ≡ some mp)
        × (mybmm_get_module mps' name2 kind2
            ≡ or_this mp name2 kind2 (mybmm_get_module mps name2 kind2))
        × (mybmm_load_module dlsym mps' w2 name kind ≡ some (some mp, mps', w2))
  mybmm_load_module-once dlsym mps mps' w w' w2 name kind mp name2 kind2 d h l =
      elim (Option-cases (mybmm_get_module mps name kind)) [
        | inl e ↦
            let added : mps' ≡ mps ++ mp ∷ [] =
              load_module-new dlsym mps mps' w w' name kind mp e l in
            let there : mybmm_get_module mps' name kind ≡ some mp =
              ap (λ ms. mybmm_get_module ms name kind) added
              ∙ (get_module-or_this mps mp name kind ∙ rw (e, h) refl) in
            let (n, k) = is_module-eq mp name mp.name kind mp.kind h (is_module-own mp) in
            (
              subst AreDistinct (sym added)
                  (AreDistinct-append mps mp d (ap₂ (mybmm_get_module mps) (sym n) (sym k) ∙ e)),
              there,
              ap (λ ms. mybmm_get_module ms name2 kind2) added
                  ∙ get_module-or_this mps mp name2 kind2,
              load_module-there dlsym mps' w2 name kind mp there,
            )
        | inr (m, e) ↦
            let given : some (some mp, mps', w') ≡ some (some m, mps, w) =
              sym l ∙ load_module-there dlsym mps w name kind m e in
            let same : mps' ≡ mps = cc given in
            let m_is : m ≡ mp = cc given in
            let there : mybmm_get_module mps' name kind ≡ some mp = cc (same, m_is, e) in
            (
              subst AreDistinct (sym same) d,
              there,
              ap (λ ms. mybmm_get_module ms name2 kind2) same
                  ∙ or_listed mps mp name name2 kind kind2 (cc (m_is, e)) h,
              load_module-there dlsym mps' w2 name kind mp there,
            )
      ]
