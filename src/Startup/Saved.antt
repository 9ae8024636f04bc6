-- ===== src/Startup/Saved.antt =====
-- What `read_config` saves, and that it saves what has changed.
use mybmm.Base.{
  ℕ, zero, suc, ◌<◌, ◌≡◌, refl, sym, subst, ap, ◌∙◌, Bool, true, false, Option, none, some, List,
  [], ◌∷◌, length, ◌==◌, arith, ℤ, pos, is_zero, ◌⊎◌, inl, inr, Bool-cases, Option-cases, Yields,
  Yields-some, Yields-bind, Yields-any, Yields-weaker, check_state, check-clear,
}
use mybmm.Floats.{Floats, intf}
use mybmm.Battery.{Conf, battery_init}
use mybmm.Cfg.{CfgInfo, cfg_get_item}
use mybmm.Cfg.Read.{cfg_read}
use mybmm.Cfg.Write.{cfg_write}
use mybmm.Cfg.Written.{AreSections}
use mybmm.Cfg.RoundTrip.{cfg_read-cfg_write}
use mybmm.Cfg.Table.{Setting}
use mybmm.Settings.{read_tables}
use mybmm.Modules.{inverter_type}
use mybmm.Setup.{
  no_strings, Setup, System, Strings, type_keyword, pack_name, invertertab, inverter_section,
  config_dirty, max_packs,
}
use mybmm.Setup.Add.{read_strings, make_instance, pack_add}
use mybmm.Setup.Start.{
  next_pack, add_packs, start_pool, set_controls, pack_init, inverter_add, inverter_init,
}
use mybmm.Setup.Marked.{
  IsMarked, IsMarked-trans, pack_add-IsMarked, read_strings-IsMarked, make_instance-IsMarked,
}
use mybmm.Startup.{Program, store_config, store_mqtt, together, save, init_packs, configure}

module _ {World Number : Type 0} (sys : System World Number) where
  next_pack-IsMarked :
      (i : ℕ) (more : Setup World Number → Option (Bool × Setup World Number))
      (found : Option (List ℕ)) (st : Setup World Number)
      → ((st' : Setup World Number) → Yields (λ (ended, st2). IsMarked st' st2) (more st'))
      → Yields (λ (ended, st2). IsMarked st st2) (next_pack sys more i found st)
  unfolding next_pack
  next_pack-IsMarked i more none st h = inr (refl, refl)
  next_pack-IsMarked i more (some v) st h =
      Yields-bind (λ (ended, st2). IsMarked st st2) (λ (r, st'). IsMarked st st')
        (pack_add sys (pack_name (suc i)) no_strings st) _
        (pack_add-IsMarked sys (pack_name (suc i)) no_strings st)
        (λ (r, st') k. elim (Bool-cases (is_zero r)) [
          | inl z ↦ rw z (
              Yields-weaker (λ (ended, st2). IsMarked st' st2) (λ (ended, st2). IsMarked st st2)
                (more st') (λ (ended, st2) k2. IsMarked-trans st st' st2 k k2) (h st'))
          | inr z ↦ rw z k
        ])

  add_packs-IsMarked :
      (n i : ℕ) (st : Setup World Number)
      → Yields (λ (ended, st'). IsMarked st st') (add_packs sys n i st)
  unfolding add_packs
  add_packs-IsMarked zero i st = inr (refl, refl)
  add_packs-IsMarked (suc n) i st =
      Yields-any (λ (ended, st'). IsMarked st st')
        (cfg_get_item st.cfg (pack_name (suc i)) type_keyword) _
        (λ found.
          next_pack-IsMarked i (λ st'. add_packs sys n (suc i) st') found st
            (λ st'. add_packs-IsMarked n (suc i) st'))

  start_pool-IsMarked :
      (ended : Bool) (st : Setup World Number) → IsMarked st (start_pool sys (ended, st)).1
  unfolding start_pool set_controls
  start_pool-IsMarked false st = inr (refl, refl)
  start_pool-IsMarked true st = elim (Bool-cases (length st.packs == 0)) [
    | inl z ↦ rw z (inr (refl, refl))
    | inr z ↦ elim (Bool-cases sys.has_memory) [
      | inl m ↦ rw (z, m) (inr (refl, refl))
      | inr m ↦ rw (z, m) (inr (refl, refl))
    ]
  ]

  pack_init-IsMarked :
      (st : Setup World Number) → Yields (λ (r, st'). IsMarked st st') (pack_init sys st)
  unfolding pack_init
  pack_init-IsMarked st =
      Yields-bind (λ (r, st'). IsMarked st st') (λ (ended, st'). IsMarked st st')
        (add_packs sys max_packs 0 st) _ (add_packs-IsMarked max_packs 0 st)
        (λ (ended, st') k.
          IsMarked-trans st st' (start_pool sys (ended, st')).1 k (start_pool-IsMarked ended st'))

  inverter_add-IsMarked :
      (s : Strings) (st : Setup World Number)
      → Yields (λ (r, st'). IsMarked st st') (inverter_add sys s st)
  unfolding inverter_add
  inverter_add-IsMarked s st =
      Yields-bind (λ (r, st'). IsMarked st st') (λ (made, st'). IsMarked st st')
        (make_instance sys inverter_type s st) _ (make_instance-IsMarked sys inverter_type s st)
        (λ (made, st') k. elim (Option-cases made) [ inl e ↦ rw e k | inr (inv, e) ↦ rw e k ])

  inverter_init-IsMarked :
      (st : Setup World Number) → Yields (λ (r, st'). IsMarked st st') (inverter_init sys st)
  unfolding inverter_init
  inverter_init-IsMarked st =
      Yields-any (λ (r, st'). IsMarked st st') (cfg_get_item st.cfg inverter_section type_keyword) _
        (λ found. elim (Option-cases found) [
          | inl e ↦ rw e (inr (refl, refl))
          | inr (v, e) ↦ rw e (
              Yields-bind (λ (r, st'). IsMarked st st') (λ (s, capacity, st'). IsMarked st st')
                (read_strings sys (invertertab inverter_section) inverter_section no_strings st) _
                (read_strings-IsMarked sys (invertertab inverter_section) inverter_section
                  no_strings st)
                (λ (s, capacity, st1) k.
                  Yields-weaker (λ (r, st2). IsMarked st1 st2) (λ (r, st2). IsMarked st st2)
                    (inverter_add sys s st1) (λ (r, st2) k2. IsMarked-trans st st1 st2 k k2)
                    (inverter_add-IsMarked s st1)))
        ])

-- What is not marked is as it was.
unmarked-same :
    {World Number : Type 0} (st0 st : Setup World Number)
    → IsMarked st0 st
    → check_state st.state config_dirty ≡ false
    → st.cfg ≡ st0.cfg
unmarked-same st0 st (inl m) d = absurd (ground (arith, m, d))
unmarked-same st0 st (inr (s, f)) d = f

module _ (fl : Floats) {World : Type 0} (sys : System World fl.Number) where
  open fl use {Number}

  -- After a result of 0: nothing is left to be saved; what was written is the configuration, and where nothing was
  -- written the configuration is `cfg`.
  abbrev HasSaved : Option CfgInfo → Program World Number → Option (List ℕ) → Type 0
  HasSaved cfg p' written =
      (check_state p'.setup.state config_dirty ≡ false)
      × (((written ≡ none) × (p'.setup.cfg ≡ cfg))
          ⊎ ((info : CfgInfo) × (p'.setup.cfg ≡ some info) × (written ≡ (cfg_write true info).1)))

  abbrev IsDone : Option CfgInfo → ℤ × Program World Number × Option (List ℕ) → Type 0
  IsDone cfg (r, p', written) = r ≡ pos 0 → HasSaved cfg p' written

  save-IsDone :
      (st0 st : Setup World Number) (c : Conf fl)
      → IsMarked st0 st
      → Yields (IsDone st0.cfg) (save fl sys true (together fl sys c st))
  unfolding save
  save-IsDone st0 st c marked = elim (Bool-cases (check_state st.state config_dirty)) [
    | inl d ↦ elim (Option-cases st.cfg) [
      | inl e ↦ rw (d, e) tt
      | inr (info, e) ↦ rw (d, e) (λ z. (check-clear 5 5 st.state, inr (info, e, refl)))
    ]
    | inr d ↦ rw d (λ z. (d, inl (refl, unmarked-same st0 st marked d)))
  ]

  init_packs-IsDone :
      (st0 : Setup World Number) (c : Conf fl) (r : ℤ) (st : Setup World Number)
      → IsMarked st0 st
      → Yields (IsDone st0.cfg) (init_packs fl sys true c (r, st))
  unfolding init_packs
  init_packs-IsDone st0 c r st marked = elim (Bool-cases (is_zero r)) [
    | inl z ↦ rw z (
        Yields-bind (IsDone st0.cfg) (λ (r2, st2). IsMarked st st2) (pack_init sys st) _
          (pack_init-IsMarked sys st)
          (λ (r2, st2) k. elim (Bool-cases (is_zero r2)) [
            | inl z2 ↦ rw z2 (save-IsDone st0 st2 c (IsMarked-trans st0 st st2 marked k))
            | inr z2 ↦ rw z2 (λ zero_is. absurd (ground (arith, zero_is)))
          ]))
    | inr z ↦ rw z (λ zero_is. absurd (ground (arith, zero_is)))
  ]

  store_mqtt-cfg :
      (stored : List (Option (Setting Number))) (st : Setup World Number)
      → (store_mqtt fl stored st).cfg ≡ st.cfg
  unfolding store_mqtt
  store_mqtt-cfg [] st = refl
  store_mqtt-cfg (a ∷ []) st = refl
  store_mqtt-cfg (a ∷ b ∷ rest) st = refl

  configure-IsDone :
      (p : Program World Number) → Yields (IsDone p.setup.cfg) (configure fl sys true p)
  unfolding configure
  configure-IsDone p =
      Yields-any (IsDone p.setup.cfg) (read_tables sys.atof p.setup.cfg) _ (λ stored.
        let c =
          battery_init fl
            (record (store_config fl stored.config p.conf) { battery_temp = intf fl (pos 25) }) in
        let st0 : Setup World Number = record (store_mqtt fl stored.mqtt p.setup) {
          state = c.state;
        } in
        Yields-bind (IsDone p.setup.cfg) (λ (r, st). IsMarked st0 st) (inverter_init sys st0) _
          (inverter_init-IsMarked sys st0)
          (λ (r, st) marked.
            subst (λ cfg. Yields (IsDone cfg) (init_packs fl sys true c (r, st)))
              (store_mqtt-cfg stored.mqtt p.setup) (init_packs-IsDone st0 c r st marked)))

  -- Where the set-up behind a configuration file, which can be written, returns 0, nothing is left to be saved. Either
  -- nothing was written and the configuration is that of the file; or the configuration, with what the
  -- set-up has put into it, was written, and `cfg_read` reads it at the next start as it is, if the
  -- file's name has less than 256 characters, its sections and items have a form that a line can hold (names and keywords
  -- in upper case, keywords trimmed, both at most 63 characters long), and no section has the name, and no
  -- item of a section the keyword, of one before it.
  pub configure-saved :
      (p p' : Program World Number) (written : Option (List ℕ)) (info : CfgInfo) (buffer : List ℕ)
      → configure fl sys true p ≡ some (pos 0, p', written)
      → p'.setup.cfg ≡ some info
      → length info.filename < 256
      → AreSections [] info.sections
      → (check_state p'.setup.state config_dirty ≡ false)
        × (((written ≡ none) × (p.setup.cfg ≡ some info))
            ⊎ (cfg_read buffer info.filename written ≡ some (some info)))
  configure-saved p p' written info buffer e has fits all =
      let (clean, saved) =
        Yields-some (IsDone p.setup.cfg) (configure fl sys true p) (pos 0, p', written)
          (configure-IsDone p) e refl in
      (clean, read_back saved)
    where
      read_back :
          ((written ≡ none) × (p'.setup.cfg ≡ p.setup.cfg))
            ⊎ ((i : CfgInfo) × (p'.setup.cfg ≡ some i) × (written ≡ (cfg_write true i).1))
          → ((written ≡ none) × (p.setup.cfg ≡ some info))
            ⊎ (cfg_read buffer info.filename written ≡ some (some info))
      read_back (inl (w, same)) = inl (w, sym same ∙ has)
      read_back (inr (i, is, w)) =
          let same : i ≡ info = cc (is, has) in
          inr (
            ap (λ t. cfg_read buffer info.filename t) (w ∙ ap (λ j. (cfg_write true j).1) same)
            ∙ (cfg_read-cfg_write buffer info fits all).1)
