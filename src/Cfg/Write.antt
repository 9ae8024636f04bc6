-- ===== src/Cfg/Write.antt =====
-- `cfg_write`: the text of a configuration.
use mybmm.Base.{ℕ, Bool, Option, none, some, List, [], ◌∷◌, ◌++◌, ◌==◌, if◌then◌else◌, ℤ, pos}
use mybmm.Cfg.{CfgItem, CfgSection, CfgInfo}

unfoldable pub write_desc : Option (List ℕ) → List ℕ
write_desc none = []
write_desc (some []) = 59 ∷ 10 ∷ []
write_desc (some (c ∷ cs)) = (if c == 59 then [] else 59 ∷ []) ++ ((c ∷ cs) ++ 10 ∷ [])

unfoldable pub write_items : List CfgItem → List ℕ
unfolding write_desc
write_items [] = []
write_items (i ∷ is) = write_desc i.desc ++ ((i.keyword ++ 61 ∷ i.value) ++ 10 ∷ write_items is)

unfoldable pub write_sections : List CfgSection → List ℕ
unfolding write_items
write_sections [] = []
write_sections (s ∷ ss) =
    ((91 ∷ (s.name ++ 93 ∷ [])) ++ 10 ∷ (write_items s.items ++ 10 ∷ write_sections ss))

-- What it returns and the file that it leaves, if it can open it.
unfoldable pub cfg_write : Bool → CfgInfo → ℤ × Option (List ℕ)
unfolding write_sections
cfg_write is_open info =
    if is_open then (pos 0, some (write_sections info.sections)) else (pos 1, none)
