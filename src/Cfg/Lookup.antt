-- ===== src/Cfg/Lookup.antt =====
-- Sections and items that are looked for after a change.
use mybmm.Base.{
  ℕ, zero, suc, ◌<◌, ◌≤◌, ◌≡◌, refl, sym, ap, ◌∙◌, true, false, Option, none, some, List, [], ◌∷◌,
  ◌++◌, length, take, map, arith, Bool-cases, inl, inr, Option-cases,
}
use mybmm.Strings.{same_string, to_upper, same_string_refl, same_string_eq, upper_into-fits}
use mybmm.Cfg.{
  CfgItem, CfgSection, CfgInfo, find_item, find_section, cfg_get_section, cfg_create_section,
  open_section, new_desc, update_section, put_item,
}

abbrev KeepsName : (CfgSection → CfgSection) → Type 0
KeepsName f = (s : CfgSection) → (f s).name ≡ s.name

module _ (name : List ℕ) where
  pub find_section-here :
      (s : CfgSection) (ss : List CfgSection)
      → same_string s.name name ≡ true
      → find_section name (s ∷ ss) ≡ some s
  unfolding find_section
  find_section-here s ss h = rw h refl

  pub find_section-there :
      (s : CfgSection) (ss : List CfgSection)
      → same_string s.name name ≡ false
      → find_section name (s ∷ ss) ≡ find_section name ss
  unfolding find_section
  find_section-there s ss h = rw h refl

  find_section-same :
      (ss : List CfgSection) (s : CfgSection)
      → find_section name ss ≡ some s
      → same_string s.name name ≡ true
  find_section-same [] s e = unfold find_section in absurd (ground arith)
  find_section-same (t ∷ ss) s e = elim (Bool-cases (same_string t.name name)) [
    | inl h ↦
        let t_is : t ≡ s = cc (find_section-here t ss h) in
        ap (λ x. same_string x.name name) (sym t_is) ∙ h
    | inr h ↦ find_section-same ss s (sym (find_section-there t ss h) ∙ e)
  ]

  pub find_section-append :
      (ss ts : List CfgSection)
      → find_section name ss ≡ none
      → find_section name (ss ++ ts) ≡ find_section name ts
  find_section-append [] ts e = refl
  find_section-append (s ∷ ss) ts e = elim (Bool-cases (same_string s.name name)) [
    | inl h ↦ absurd (cc (find_section-here s ss h))
    | inr h ↦
        find_section-there s (ss ++ ts) h
        ∙ find_section-append ss ts (sym (find_section-there s ss h) ∙ e)
  ]

  pub find_section-update_section :
      (f : CfgSection → CfgSection) (ss : List CfgSection) (s : CfgSection)
      → KeepsName f
      → find_section name ss ≡ some s
      → find_section name (update_section name f ss) ≡ some (f s)
  unfolding update_section
  find_section-update_section f [] s keeps e = unfold find_section in absurd (ground arith)
  find_section-update_section f (t ∷ ss) s keeps e = elim (Bool-cases (same_string t.name name)) [
    | inl h ↦
        let t_is : t ≡ s = cc (find_section-here t ss h) in
        rw h (
          find_section-here (f t) ss (ap (λ n. same_string n name) (keeps t) ∙ h)
          ∙ ap (λ x. some (f x)) t_is)
    | inr h ↦ rw h (
        find_section-there t (update_section name f ss) h
        ∙ find_section-update_section f ss s keeps (sym (find_section-there t ss h) ∙ e))
  ]

pub length-upper : (s : List ℕ) → length (map to_upper s) ≡ length s
length-upper [] = refl
length-upper (c ∷ cs) = ap suc (length-upper cs)

pub take_short : (n : ℕ) (s : List ℕ) → length s ≤ n → take n s ≡ s
take_short zero [] h = refl
take_short zero (c ∷ cs) h = absurd (omega arith)
take_short (suc n) [] h = refl
take_short (suc n) (c ∷ cs) h = ap (◌∷◌ c) (take_short n cs (omega arith))

pub find_item-put_item :
    (k : List ℕ) (desc : Option (List ℕ)) (v : List ℕ) (is : List CfgItem)
    → length k ≤ 63
    → (i : CfgItem) × (find_item k (put_item k desc v is) ≡ some i) × (i.value ≡ v)
unfolding find_item put_item
find_item-put_item k desc v [] fits =
    let itself : same_string (take 63 k) k ≡ true =
      ap (λ s. same_string s k) (take_short 63 k fits) ∙ same_string_refl k in
    (record { keyword = take 63 k; desc = desc; value = v }, rw itself refl, refl)
find_item-put_item k desc v (i ∷ is) fits = elim (Bool-cases (same_string i.keyword k)) [
  | inl h ↦ (record i { desc = new_desc desc i.desc; value = v }, rw (h, h) refl, refl)
  | inr h ↦ let (j, e, ev) = find_item-put_item k desc v is fits in (j, rw (h, h) e, ev)
]

-- After `open_section` the section is there.
pub open_section-IsOpen :
    (info : CfgInfo) (sname : List ℕ)
    → length sname < 64
    → (info' : CfgInfo) × (s : CfgSection) × (open_section info sname
        ≡ some (map to_upper sname, info'))
      × (find_section (map to_upper sname) info'.sections ≡ some s)
unfolding open_section cfg_get_section cfg_create_section
open_section-IsOpen info sname fits =
    let name = map to_upper sname in
    elim (Option-cases (find_section name info.sections)) [
      | inl e ↦ (
        record info { sections = info.sections ++ (record { name = name; items = [] }) ∷ [] },
        record { name = name; items = [] },
        rw (upper_into-fits 64 sname fits, e, upper_into-fits 64 sname fits) refl,
        find_section-append name info.sections ((record { name = name; items = [] }) ∷ []) e
            ∙ find_section-here name (record { name = name; items = [] }) []
                (same_string_refl name),
      )
      | inr (s, e) ↦
          let s_is : s.name ≡ name =
            same_string_eq s.name name (find_section-same name info.sections s e) in
          (info, s, rw (upper_into-fits 64 sname fits, e) (ap (λ n. some (n, info)) s_is), e)
    ]
