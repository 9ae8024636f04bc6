-- ===== src/Cfg/RoundTrip.antt =====
-- A configuration that is written is read back.
use mybmm.Base.{
  ℕ, ◌<◌, ◌≤◌, ◌≡◌, ◌≢◌, refl, ap, ◌∙◌, true, false, Option, none, some, List, [], ◌∷◌, ◌++◌,
  append_assoc, append-nil, length, take, map, arith, All, ltb, ◌==◌, if◌then◌else◌, pos,
}
use mybmm.Strings.{is_nil, to_upper, upper_into, upper_into-fits}
use mybmm.Cfg.{
  CfgItem, CfgSection, CfgInfo, find_item, find_section, cfg_get_section, cfg_create_section,
  open_section,
}
use mybmm.Cfg.Lookup.{take_short}
use mybmm.Cfg.Read.{
  line_room, read_lines, write_line, Reader, header_name, read_header, is_comment, add_item,
  read_item, read_text, read_line, read_all, cfg_read,
}
use mybmm.Cfg.Write.{write_desc, write_items, write_sections, cfg_write}
use mybmm.Cfg.Lines.{
  IsLine, read_lines-blank, before-append, read_line-text, read_line-header, read_line-blank,
  scan_key-key, string_at-value,
}
use mybmm.Cfg.Written.{
  IsDesc, IsItem, AreNew, header, AreSections, reader, Reads, update_section-last, delete_item-new,
  not_bracket, map-upper, reads_line, split_text, text_of,
}

module _ (file : List ℕ) (ss : List CfgSection) (name : List ℕ) where
  write_desc-Reads :
      (d : Option (List ℕ)) (b0 : List ℕ)
      → IsDesc d
      → Reads
          (write_desc d)
          (reader file ss (some name) [] b0)
          (λ b. reader file ss (some name) (text_of d) b)
  unfolding write_desc read_text is_comment header_name
  write_desc-Reads none b0 is rest = (b0, refl)
  write_desc-Reads (some []) b0 (is, e) rest = absurd (ground arith)
  write_desc-Reads (some (c ∷ cs)) b0 (is, e) rest =
      let s = c ∷ cs in
      let b = write_line s b0 in
      let no_bracket : (c == 91) ≡ false = ground arith in
      let plain : header_name s ≡ none = rw no_bracket refl in
      let comment : is_comment s ≡ true = rw e refl in
      let taken : read_line s (reader file ss (some name) [] b0)
          ≡ some (reader file ss (some name) s b) =
        read_line-text s (reader file ss (some name) [] b0) is plain
        ∙ rw comment (
            ap (λ d. some (reader file ss (some name) d b))
              (take_short 1023 s (omega (arith, is.fits)))) in
      (b, rw e (reads_line s _ _ is taken rest))

text_of-desc :
    (d : Option (List ℕ)) → IsDesc d → (if is_nil (text_of d) then none else some (text_of d)) ≡ d
text_of-desc none is = refl
text_of-desc (some d) (is, e) = rw is.start refl

-- the sections with a last one that has the items
abbrev with_last : List CfgSection → List ℕ → List CfgItem → List CfgSection
with_last pre name items = pre ++ (record { name = name; items = items }) ∷ []

module _ (file : List ℕ) (pre : List CfgSection) (name : List ℕ)
    (only : find_section name pre ≡ none) where
  abbrev in_section : List CfgItem → List ℕ → List ℕ → Reader
  in_section items desc b = reader file (with_last pre name items) (some name) desc b

  read_item-item :
      (i : CfgItem) (old : List CfgItem) (b : List ℕ)
      → IsItem i
      → find_item i.keyword old ≡ none
      → read_item
          (i.keyword ++ 61 ∷ i.value)
          name
          (in_section old (text_of i.desc) (write_line (i.keyword ++ 61 ∷ i.value) b))
        ≡ some (in_section (old ++ i ∷ []) [] (write_line (i.keyword ++ 61 ∷ i.value) b))
  unfolding read_item
  read_item-item i old b is new =
      rw
        (
          scan_key-key 63 i.keyword i.value is.key is.fits,
          string_at-value i.keyword i.value b is.line,
          is.trimmed,
          text_of-desc i.desc is.described,
          update_section-last name (add_item i) pre (record { name = name; items = old }) only refl,
          delete_item-new i.keyword old new,
        )
        refl

  -- the line of an item, behind its description
  read_item-Reads :
      (i : CfgItem) (old : List CfgItem) (b0 : List ℕ)
      → IsItem i
      → find_item i.keyword old ≡ none
      → Reads
          ((i.keyword ++ 61 ∷ i.value) ++ 10 ∷ [])
          (in_section old (text_of i.desc) b0)
          (in_section (old ++ i ∷ []) [])
  unfolding read_text
  read_item-Reads i old b0 is new rest =
      let s = i.keyword ++ 61 ∷ i.value in
      let r = in_section old (text_of i.desc) b0 in
      (
        write_line s b0,
        reads_line s r _ is.line
            (read_line-text s r is.line is.no_header
              ∙ rw is.no_comment (read_item-item i old b0 is new))
            rest,
      )

  write_items-Reads :
      (is : List CfgItem) (old : List CfgItem) (b0 : List ℕ)
      → All IsItem is
      → AreNew old is
      → Reads (write_items is) (in_section old [] b0) (in_section (old ++ is) [])
  unfolding write_items
  write_items-Reads [] old b0 all new rest = (b0, rw (append-nil old) refl)
  write_items-Reads (i ∷ is) old b0 (is_i, all) (new_i, new) rest =
      let line = (i.keyword ++ 61 ∷ i.value) ++ 10 ∷ [] in
      let (b1, e1) =
        write_desc-Reads file (with_last pre name old) name i.desc b0 is_i.described
          (line ++ (write_items is ++ rest)) in
      let (b2, e2) = read_item-Reads i old b1 is_i new_i (write_items is ++ rest) in
      let (b3, e3) = write_items-Reads is (old ++ i ∷ []) b2 all new rest in
      (
        b3,
        ap (λ t. read_all (read_lines false line_room t) (in_section old [] b0))
              (split_text (write_desc i.desc) (i.keyword ++ 61 ∷ i.value) (write_items is) rest)
            ∙ (e1
                ∙ (e2
                    ∙ (e3
                        ∙ ap
                            (λ js. read_all (read_lines false line_room rest) (in_section js [] b3))
                            (append_assoc old (i ∷ []) is)))),
      )

  -- the line with the section's name
  header-Reads :
      (b0 : List ℕ)
      → All (λ c. (c ≢ 93) × (to_upper c ≡ c)) name
      → length name ≤ 63
      → IsLine (header name)
      → Reads (header name ++ 10 ∷ []) (reader file pre none [] b0) (in_section [] [])
  unfolding read_header open_section cfg_get_section cfg_create_section header_name
  header-Reads b0 all fits is rest =
      let closed : header_name (header name) ≡ some name =
        before-append 93 name [] (not_bracket name all) in
      let r' : Reader = reader file pre none [] (write_line (header name) b0) in
      let short : take 63 (map to_upper name) ≡ name =
        rw (map-upper name all) (take_short 63 name fits) in
      let upper : upper_into 64 name ≡ some name =
        upper_into-fits 64 name (omega arith) ∙ ap some (map-upper name all) in
      let made : read_header name r' ≡ some (in_section [] [] (write_line (header name) b0)) =
        rw (short, upper, only, short, upper) refl in
      (
        write_line (header name) b0,
        reads_line (header name) (reader file pre none [] b0) _ is
            (read_line-header (header name) name (reader file pre none [] b0) is closed ∙ made)
            rest,
      )

write_sections-Reads :
    (file : List ℕ) (ss pre : List CfgSection) (b0 : List ℕ)
    → AreSections pre ss
    → Reads (write_sections ss) (reader file pre none [] b0) (reader file (pre ++ ss) none [])
unfolding write_sections
write_sections-Reads file [] pre b0 all rest = (b0, rw (append-nil pre) refl)
write_sections-Reads file (s ∷ ss) pre b0 (is, only, all) rest =
    let text = write_items s.items in
    let after = write_sections ss ++ rest in
    let (b1, e1) =
      header-Reads file pre s.name only b0 is.name is.fits is.line (text ++ 10 ∷ after) in
    let (b2, e2) =
      write_items-Reads file pre s.name only s.items [] b1 is.items is.new (10 ∷ after) in
    let r2 = reader file (pre ++ s ∷ []) (some s.name) [] b2 in
    let (b3, e3) = read_line-blank r2 in
    let blank : read_all (read_lines false line_room (10 ∷ after)) r2
        ≡ read_all (read_lines false line_room after) (reader file (pre ++ s ∷ []) none [] b3) =
      unfold read_all in rw (read_lines-blank after, e3) refl in
    let (b4, e4) = write_sections-Reads file ss (pre ++ s ∷ []) b3 all rest in
    let split : write_sections (s ∷ ss) ++ rest
        ≡ (header s.name ++ 10 ∷ []) ++ (text ++ 10 ∷ after) =
      split_text [] (header s.name) (text ++ 10 ∷ write_sections ss) rest
      ∙ ap (◌++◌ (header s.name ++ 10 ∷ [])) (append_assoc text (10 ∷ write_sections ss) rest) in
    (
      b4,
      ap (λ t. read_all (read_lines false line_room t) (reader file pre none [] b0)) split
          ∙ (e1
              ∙ (e2
                  ∙ (blank
                      ∙ (e4
                          ∙ ap
                              (λ ts.
                                read_all (read_lines false line_room rest)
                                  (reader file ts none [] b4))
                              (append_assoc pre (s ∷ []) ss))))),
    )

-- the end of the file
read_end :
    (r : Reader)
    → (b : List ℕ) × (read_all (read_lines false line_room []) r
        ≡ some (record r { section = none; buffer = b }))
unfolding read_all read_lines
read_end r = let (b, e) = read_line-blank r in (b, rw e refl)

-- Where every section and item has a form that a line can hold (names and keywords in upper case, keywords trimmed, both
-- at most 63 characters long), no section has the name of one before it and no item of a section the keyword of
-- one before it, `cfg_read` of what `cfg_write` has written gives the same configuration, whatever is in
-- the buffer; the file's name has less than 256 characters.
pub cfg_read-cfg_write :
    (buffer : List ℕ) (info : CfgInfo)
    → length info.filename < 256
    → AreSections [] info.sections
    → ((cfg_write true info).0 ≡ pos 0)
      × (cfg_read buffer info.filename (cfg_write true info).1 ≡ some (some info))
unfolding cfg_read cfg_write
cfg_read-cfg_write buffer info fits all =
    let (b, e) = write_sections-Reads info.filename info.sections [] buffer all [] in
    let (b', e') = read_end (reader info.filename info.sections none [] b) in
    let e : read_all (read_lines false line_room (write_sections info.sections))
          (reader info.filename [] none [] buffer)
        ≡ some (reader info.filename info.sections none [] b') =
      rw (append-nil (write_sections info.sections)) at e ∙ e' in
    let room : ltb (length info.filename) 256 ≡ true = ground arith in
    (
      refl,
      rw (room, e)
          (ap (λ f. some (some (record info { filename = f })))
            (take_short 255 info.filename (omega arith))),
    )
