-- ===== src/Cfg/Written.antt =====
-- The configurations that are written so that they can be read back, and lines of the reader.
use mybmm.Base.{
  ℕ, ◌≤◌, ◌≡◌, ◌≢◌, refl, sym, ap, ap₂, ◌∙◌, Bool, true, false, Option, none, some, List, [], ◌∷◌,
  ◌++◌, append_assoc, length, map, arith, All, ◌==◌, Bool-cases, inl, inr,
}
use mybmm.Strings.{same_string, to_upper, trim, same_string_refl}
use mybmm.Cfg.{CfgItem, CfgSection, find_item, find_section, update_section}
use mybmm.Cfg.Read.{
  line_room, read_lines, Reader, header_name, is_comment, delete_item, read_line, read_all,
}
use mybmm.Cfg.Lines.{IsLine, read_lines-line}

abbrev pub has_semicolon : List ℕ → Bool
has_semicolon [] = false
has_semicolon (c ∷ cs) = c == 59

abbrev pub IsDesc : Option (List ℕ) → Type 0
IsDesc none = Unit {0}
IsDesc (some d) = IsLine d × (has_semicolon d ≡ true)

-- An item whose line is read as one: the keyword is in upper case, trimmed and without `=`, the line
-- is no header and no comment, and a description is a comment.
pub record IsItem (i : CfgItem) : Type 0 where
  pub key : All (λ c. (c ≢ 61) × (to_upper c ≡ c)) i.keyword
  pub trimmed : trim i.keyword ≡ i.keyword
  pub fits : length i.keyword ≤ 63
  pub line : IsLine (i.keyword ++ 61 ∷ i.value)
  pub no_header : header_name (i.keyword ++ 61 ∷ i.value) ≡ none
  pub no_comment : is_comment (i.keyword ++ 61 ∷ i.value) ≡ false
  pub described : IsDesc i.desc

-- No item has the keyword of one before it.
abbrev pub AreNew : List CfgItem → List CfgItem → Type 0
AreNew old [] = Unit {0}
AreNew old (i ∷ is) = (find_item i.keyword old ≡ none) × AreNew (old ++ i ∷ []) is

abbrev pub header : List ℕ → List ℕ
header name = 91 ∷ (name ++ 93 ∷ [])

pub record IsSection (s : CfgSection) : Type 0 where
  pub name : All (λ c. (c ≢ 93) × (to_upper c ≡ c)) s.name
  pub fits : length s.name ≤ 63
  pub line : IsLine (header s.name)
  pub items : All IsItem s.items
  pub new : AreNew [] s.items

abbrev pub AreSections : List CfgSection → List CfgSection → Type 0
AreSections old [] = Unit {0}
AreSections old (s ∷ ss) =
    IsSection s × (find_section s.name old ≡ none) × AreSections (old ++ s ∷ []) ss

abbrev pub reader : List ℕ → List CfgSection → Option (List ℕ) → List ℕ → List ℕ → Reader
reader file ss section desc b = record {
  info = record { filename = file; sections = ss };
  section = section;
  desc = desc;
  buffer = b;
}

-- Reading the text goes from one state to the other, whatever follows.
abbrev pub Reads : List ℕ → Reader → (List ℕ → Reader) → Type 0
Reads text r r' =
    (rest : List ℕ)
    → (b : List ℕ) × (read_all (read_lines false line_room (text ++ rest)) r
        ≡ read_all (read_lines false line_room rest) (r' b))

pub update_section-last :
    (name : List ℕ) (f : CfgSection → CfgSection) (ss : List CfgSection) (s : CfgSection)
    → find_section name ss ≡ none
    → s.name ≡ name
    → update_section name f (ss ++ s ∷ []) ≡ ss ++ f s ∷ []
unfolding update_section find_section
update_section-last name f [] s new is =
    let here : same_string s.name name ≡ true =
      ap (λ n. same_string n name) is ∙ same_string_refl name in
    rw here refl
update_section-last name f (t ∷ ss) s new is = elim (Bool-cases (same_string t.name name)) [
  | inl h ↦ absurd (ground arith)
  | inr h ↦ rw h (ap (◌∷◌ t) (update_section-last name f ss s (rw h at new) is))
]

pub delete_item-new :
    (k : List ℕ) (is : List CfgItem) → find_item k is ≡ none → delete_item k is ≡ is
unfolding delete_item find_item
delete_item-new k [] new = refl
delete_item-new k (i ∷ is) new = elim (Bool-cases (same_string i.keyword k)) [
  | inl h ↦ absurd (ground arith)
  | inr h ↦ rw h (ap (◌∷◌ i) (delete_item-new k is (rw h at new)))
]

pub not_bracket : (s : List ℕ) → All (λ c. (c ≢ 93) × (to_upper c ≡ c)) s → All (λ c. c ≢ 93) s
not_bracket [] all = tt
not_bracket (c ∷ cs) ((ne, _), all) = (ne, not_bracket cs all)

pub map-upper : (s : List ℕ) → All (λ c. (c ≢ 93) × (to_upper c ≡ c)) s → map to_upper s ≡ s
map-upper [] all = refl
map-upper (c ∷ cs) ((_, up), all) = ap₂ ◌∷◌ up (map-upper cs all)

pub reads_line :
    (s : List ℕ) (r r' : Reader)
    → IsLine s
    → read_line s r ≡ some r'
    → (rest : List ℕ)
    → read_all (read_lines false line_room ((s ++ 10 ∷ []) ++ rest)) r
      ≡ read_all (read_lines false line_room rest) r'
unfolding read_all
reads_line s r r' is e rest = rw (append_assoc s (10 ∷ []) rest, read_lines-line s rest is, e) refl

pub split_text :
    (d k w rest : List ℕ) → (d ++ (k ++ 10 ∷ w)) ++ rest ≡ d ++ ((k ++ 10 ∷ []) ++ (w ++ rest))
split_text d k w rest =
    append_assoc d (k ++ 10 ∷ w) rest
    ∙ ap (◌++◌ d) (append_assoc k (10 ∷ w) rest ∙ sym (append_assoc k (10 ∷ []) (w ++ rest)))

abbrev pub text_of : Option (List ℕ) → List ℕ
text_of none = []
text_of (some d) = d
