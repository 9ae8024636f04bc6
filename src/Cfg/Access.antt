-- ===== src/Cfg/Access.antt =====
-- What `cfg_get_item` gives after a `cfg_set_item`, of the same keyword and of any other.
use mybmm.Base.{
  ℕ, ◌<◌, ◌≤◌, ◌≡◌, refl, sym, ap, ◌∙◌, true, false, ◌&&◌, Option, none, some, List, [], ◌∷◌, ◌++◌,
  length, map, arith, if◌then◌else◌, Bool-cases, inl, inr, pos, Option-cases,
}
use mybmm.Strings.{same_string, to_upper, same_string_eq, upper_into-fits}
use mybmm.Cfg.{
  CfgItem, CfgSection, CfgInfo, find_item, find_section, cfg_get_section, cfg_create_section,
  open_section, item_in, cfg_get_item, update_section, put_item, set_in, cfg_set_item,
}
use mybmm.Cfg.Lookup.{
  length-upper, take_short, find_section-update_section, find_item-put_item, open_section-IsOpen,
}

abbrev found_value : Option CfgItem → Option (List ℕ)
found_value none = none
found_value (some i) = some i.value

abbrev item_value : List ℕ → List CfgItem → Option (List ℕ)
item_value key is = found_value (find_item key is)

-- the value of a keyword in a section, where there is one
abbrev value_in : List ℕ → Option CfgSection → Option (List ℕ)
value_in key none = none
value_in key (some s) = item_value key s.items

abbrev value_of : List ℕ → List ℕ → List CfgSection → Option (List ℕ)
value_of name key ss = value_in key (find_section name ss)

cfg_get_item-value :
    (info : CfgInfo) (sname iname : List ℕ)
    → length sname < 64
    → length iname < 64
    → cfg_get_item (some info) sname iname
      ≡ some (value_of (map to_upper sname) (map to_upper iname) info.sections)
unfolding cfg_get_item cfg_get_section item_in
cfg_get_item-value info sname iname sfits ifits =
    elim (Option-cases (find_section (map to_upper sname) info.sections)) [
      | inl e ↦ rw (upper_into-fits 64 sname sfits, e) refl
      | inr (s, e) ↦ elim (Option-cases (find_item (map to_upper iname) s.items)) [
        | inl n ↦ rw (upper_into-fits 64 sname sfits, e, upper_into-fits 64 iname ifits, n) refl
        | inr (i, h) ↦
            rw (upper_into-fits 64 sname sfits, e, upper_into-fits 64 iname ifits, h) refl
      ]
    ]

module _ (k k2 : List ℕ) (other : same_string k k2 ≡ false) (fits : length k ≤ 63)
    (desc : Option (List ℕ)) (v : List ℕ) where
  item_value-put_item :
      (is : List CfgItem) → item_value k2 (put_item k desc v is) ≡ item_value k2 is
  unfolding find_item put_item
  item_value-put_item [] = rw (take_short 63 k fits, other) refl
  item_value-put_item (i ∷ is) = elim (Bool-cases (same_string i.keyword k)) [
    | inl h ↦
        let here : same_string i.keyword k2 ≡ false =
          ap (λ s. same_string s k2) (same_string_eq i.keyword k h) ∙ other in
        rw (h, here) refl
    | inr h ↦ elim (Bool-cases (same_string i.keyword k2)) [
      | inl h2 ↦ rw (h, h2) refl
      | inr h2 ↦ rw (h, h2) (item_value-put_item is)
    ]
  ]

abbrev sections_of : Option (List ℕ × CfgInfo) → List CfgSection
sections_of none = []
sections_of (some (name, info)) = info.sections

module _ (n2 k2 : List ℕ) where
  -- A new section has no values.
  value_of-append :
      (name : List ℕ) (ss : List CfgSection)
      → value_of n2 k2 (ss ++ (record { name = name; items = [] }) ∷ []) ≡ value_of n2 k2 ss
  unfolding find_section find_item
  value_of-append name [] = elim (Bool-cases (same_string name n2)) [
    | inl h ↦ rw h refl
    | inr h ↦ rw h refl
  ]
  value_of-append name (s ∷ ss) = elim (Bool-cases (same_string s.name n2)) [
    | inl h ↦ rw h refl
    | inr h ↦ rw h (value_of-append name ss)
  ]

  value_of-open_section :
      (info info' : CfgInfo) (sname name : List ℕ)
      → length sname < 64
      → open_section info sname ≡ some (name, info')
      → value_of n2 k2 info'.sections ≡ value_of n2 k2 info.sections
  unfolding open_section cfg_get_section cfg_create_section
  value_of-open_section info info' sname name fits e =
      let upper = map to_upper sname in
      let last : CfgSection = record { name = upper; items = [] } in
      elim (Option-cases (find_section upper info.sections)) [
        | inl n ↦
            let made : open_section info sname
                ≡ some (upper, record info { sections = info.sections ++ last ∷ [] }) =
              rw (upper_into-fits 64 sname fits, n, upper_into-fits 64 sname fits) refl in
            ap (λ o. value_of n2 k2 (sections_of o)) (sym e ∙ made)
            ∙ value_of-append upper info.sections
        | inr (s, h) ↦
            let there : open_section info sname ≡ some (s.name, info) =
              rw (upper_into-fits 64 sname fits, h) refl in
            ap (λ o. value_of n2 k2 (sections_of o)) (sym e ∙ there)
      ]

module _ (n k n2 k2 : List ℕ) (other : (same_string n n2 && same_string k k2) ≡ false)
    (fits : length k ≤ 63) (desc : Option (List ℕ)) (v : List ℕ) where
  value_of-update_section :
      (ss : List CfgSection)
      → value_of n2 k2 (update_section n (set_in k desc v) ss) ≡ value_of n2 k2 ss
  unfolding find_section update_section
  value_of-update_section [] = refl
  value_of-update_section (t ∷ ss) = elim (Bool-cases (same_string t.name n)) [
    | inl h ↦ elim (Bool-cases (same_string t.name n2)) [
      | inl h2 ↦
          let names : same_string n n2 ≡ true =
            ap (λ s. same_string s n2) (sym (same_string_eq t.name n h)) ∙ h2 in
          let keys : same_string k k2 ≡ false = ground arith in
          rw (h, h2) (item_value-put_item k k2 keys fits desc v t.items)
      | inr h2 ↦ rw (h, h2) refl
    ]
    | inr h ↦ elim (Bool-cases (same_string t.name n2)) [
      | inl h2 ↦ rw (h, h2) refl
      | inr h2 ↦ rw (h, h2) (value_of-update_section ss)
    ]
  ]

value_of-same :
    (n k : List ℕ)
    → length k ≤ 63
    → (desc : Option (List ℕ)) (v : List ℕ) (ss : List CfgSection) (s : CfgSection)
    → find_section n ss ≡ some s
    → value_of n k (update_section n (set_in k desc v) ss) ≡ some v
value_of-same n k fits desc v ss s there =
    let (i, found, value) = find_item-put_item k desc v s.items fits in
    ap (value_in k) (find_section-update_section n (set_in k desc v) ss s (λ t. refl) there)
    ∙ (ap found_value found ∙ ap some value)

-- After `cfg_set_item` of a value, which returns 0 where the section's name has less than 64 and the
-- keyword less than 63 characters, `cfg_get_item` gives that value for the same section and keyword,
-- in upper or lower case, and for any other names of less than 64 characters what it gave before.
pub cfg_get_item-cfg_set_item :
    (info : CfgInfo) (sname iname sname2 iname2 : List ℕ) (desc : Option (List ℕ)) (v : List ℕ)
    → length sname < 64
    → length iname < 63
    → length sname2 < 64
    → length iname2 < 64
    → (info' : CfgInfo) × (cfg_set_item (some info) sname iname desc (some v)
        ≡ some (pos 0, some info'))
      × (cfg_get_item (some info') sname2 iname2 ≡ (
          if same_string (map to_upper sname) (map to_upper sname2)
            && same_string (map to_upper iname) (map to_upper iname2)
          then some (some v)
          else cfg_get_item (some info) sname2 iname2))
unfolding cfg_set_item
cfg_get_item-cfg_set_item info sname iname sname2 iname2 desc v sfits ifits sfits2 ifits2 =
    let name = map to_upper sname in
    let key = map to_upper iname in
    let name2 = map to_upper sname2 in
    let key2 = map to_upper iname2 in
    let short : length key ≤ 63 = omega (arith, length-upper iname) in
    let (info1, s, opened, there) = open_section-IsOpen info sname sfits in
    let info' : CfgInfo = record info1 {
      sections = update_section name (set_in key desc v) info1.sections;
    } in
    (
      info',
      rw (opened, upper_into-fits 63 iname ifits) refl,
      cfg_get_item-value info' sname2 iname2 sfits2 ifits2
          ∙ elim (Bool-cases (same_string name name2 && same_string key key2)) [
            | inl e ↦
                let names : name ≡ name2 = same_string_eq name name2 (ground arith) in
                let keys : key ≡ key2 = same_string_eq key key2 (ground arith) in
                rw e (
                  ap (λ n. some (value_of n key2 info'.sections)) (sym names)
                  ∙ (ap (λ k. some (value_of name k info'.sections)) (sym keys)
                      ∙ ap some (value_of-same name key short desc v info1.sections s there)))
            | inr e ↦ rw e (
                ap some (
                  value_of-update_section name key name2 key2 e short desc v info1.sections
                  ∙ value_of-open_section name2 key2 info info1 sname name sfits opened)
                ∙ sym (cfg_get_item-value info sname2 iname2 sfits2 ifits2))
          ],
    )
