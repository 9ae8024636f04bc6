-- ===== src/Setup/Marked.antt =====
-- That a change of the configuration by the set-up is marked, for the file to be saved.
use mybmm.Base.{
  ℕ, ◌≡◌, refl, ap, ◌∙◌, true, not, Option, none, some, List, ◌∷◌, ◌++◌, length, ltb, ◌==◌, is_zero,
  ◌⊎◌, inl, inr, Bool-cases, Yields, Yields-bind, Yields-any, Yields-if, Yields-weaker, check_state,
  check-set,
}
use mybmm.Strings.{is_nil}
use mybmm.Cfg.{cfg_set_item}
use mybmm.Cfg.Table.{Entry, cfg_get_tab}
use mybmm.Modules.{Module, mybmm_load_module, cellmon_type, transport_type}
use mybmm.Setup.{
  Setup, System, Strings, Added, packtab, uuid_keyword, config_dirty, store_table, own_name,
}
use mybmm.Setup.Add.{
  ensure_uuid, read_strings, load, instance_of, load_second, make_instance, connect_pack,
  finish_pack, pack_add,
}

module _ {World Number : Type 0} where
  -- The configuration is marked as changed, or it is what it was.
  abbrev pub IsMarked : Setup World Number → Setup World Number → Type 0
  IsMarked st st' =
      (check_state st'.state config_dirty ≡ true) ⊎ ((st'.state ≡ st.state) × (st'.cfg ≡ st.cfg))

  pub IsMarked-trans : (a b c : Setup World Number) → IsMarked a b → IsMarked b c → IsMarked a c
  IsMarked-trans a b c m (inl d) = inl d
  IsMarked-trans a b c (inl d) (inr (s, f)) = inl (ap (λ s. check_state s config_dirty) s ∙ d)
  IsMarked-trans a b c (inr (s, f)) (inr (s2, f2)) = inr (s2 ∙ s, f2 ∙ f)

  module _ (sys : System World Number) where
    ensure_uuid-IsMarked :
        (section : List ℕ) (s : Strings) (st : Setup World Number)
        → Yields (λ (s', st'). IsMarked st st') (ensure_uuid sys section s st)
    unfolding ensure_uuid
    ensure_uuid-IsMarked section s st =
        Yields-if (λ (s', st'). IsMarked st st') (not (is_nil s.uuid)) _ _ (inr (refl, refl))
          (Yields-if (λ (s', st'). IsMarked st st') (ltb (length (sys.new_uuid st.world).0) 37) _
            none
            (Yields-any (λ (s', st'). IsMarked st st')
              (cfg_set_item st.cfg section uuid_keyword none (some (sys.new_uuid st.world).0)) _
              (λ (r, cfg). inl (check-set 5 5 st.state)))
            tt)

    pub read_strings-IsMarked :
        (tab : List Entry) (section : List ℕ) (s0 : Strings) (st : Setup World Number)
        → Yields (λ (s, capacity, st'). IsMarked st st') (read_strings sys tab section s0 st)
    unfolding read_strings
    read_strings-IsMarked tab section s0 st =
        Yields-any (λ (s, capacity, st'). IsMarked st st') (cfg_get_tab sys.atof st.cfg tab) _
          (λ stored.
            Yields-any (λ (s, capacity, st'). IsMarked st st')
              (own_name section (store_table stored s0 none).0) _
              (λ named.
                Yields-bind (λ (s, capacity, st'). IsMarked st st') (λ (s', st'). IsMarked st st')
                  (ensure_uuid sys section named st) _ (ensure_uuid-IsMarked section named st)
                  (λ (s', st') k. k)))

    load-IsMarked :
        (st : Setup World Number) (name : List ℕ) (kind : ℕ)
        → Yields (λ (found, st'). IsMarked st st') (load sys st name kind)
    unfolding load
    load-IsMarked st name kind =
        Yields-any (λ (found, st'). IsMarked st st')
          (mybmm_load_module sys.dlsym st.modules st.world name kind) _
          (λ (found, modules, w). inr (refl, refl))

    instance_of-IsMarked :
        (s : Strings) (tp mp : Option (Module World)) (st : Setup World Number)
        → IsMarked st (instance_of sys s tp mp st).1
    unfolding instance_of
    instance_of-IsMarked s none mp st = inr (refl, refl)
    instance_of-IsMarked s (some tp) none st = inr (refl, refl)
    instance_of-IsMarked s (some tp) (some mp) st =
        elim (Bool-cases ((sys.create mp s tp st.world).0 == 0)) [
          | inl h ↦ rw h (inr (refl, refl))
          | inr h ↦ rw h (inr (refl, refl))
        ]

    load_second-IsMarked :
        (kind : ℕ) (s : Strings) (tp : Option (Module World)) (st : Setup World Number)
        → Yields (λ (made, st'). IsMarked st st') (load_second sys kind s (tp, st))
    unfolding load_second
    load_second-IsMarked kind s none st = inr (refl, refl)
    load_second-IsMarked kind s (some tp) st =
        Yields-bind (λ (made, st'). IsMarked st st') (λ (found, st'). IsMarked st st')
          (load sys st s.type_name kind) _ (load-IsMarked st s.type_name kind)
          (λ (mp, st') k.
            IsMarked-trans st st' (instance_of sys s (some tp) mp st').1 k
              (instance_of-IsMarked s (some tp) mp st'))

    pub make_instance-IsMarked :
        (kind : ℕ) (s : Strings) (st : Setup World Number)
        → Yields (λ (made, st'). IsMarked st st') (make_instance sys kind s st)
    unfolding make_instance
    make_instance-IsMarked kind s st =
        Yields-bind (λ (made, st'). IsMarked st st') (λ (found, st'). IsMarked st st')
          (load sys st s.transport transport_type) _ (load-IsMarked st s.transport transport_type)
          (λ (tp, st') k.
            Yields-weaker (λ (made, st2). IsMarked st' st2) (λ (made, st2). IsMarked st st2)
              (load_second sys kind s (tp, st')) (λ (made, st2) k2. IsMarked-trans st st' st2 k k2)
              (load_second-IsMarked kind s tp st'))

    connect_pack-IsMarked :
        (s : Strings) (st : Setup World Number)
        → Yields (λ (r, st'). IsMarked st st') (connect_pack sys s st)
    unfolding connect_pack
    connect_pack-IsMarked s st =
        Yields-if (λ (r, st'). IsMarked st st') (is_nil st.mqtt_broker) _ _ (inr (refl, refl))
          (Yields-if (λ (r, st'). IsMarked st st')
            (not (ltb (length (st.mqtt_topic ++ 47 ∷ s.name)) 192)) none _ tt
            (Yields-if (λ (r, st'). IsMarked st st')
              (is_zero (sys.connect (st.mqtt_topic ++ 47 ∷ s.name) s.name st.world).0) _ _
              (inr (refl, refl)) (inr (refl, refl))))

    finish_pack-IsMarked :
        (s : Strings) (capacity : Option Number) (made : Option (Added World Number))
        (st : Setup World Number)
        → Yields (λ (r, st'). IsMarked st st') (finish_pack sys s capacity (made, st))
    unfolding finish_pack
    finish_pack-IsMarked s capacity none st = inr (refl, refl)
    finish_pack-IsMarked s capacity (some pp) st =
        Yields-bind (λ (r, st'). IsMarked st st') (λ (r, st'). IsMarked st st')
          (connect_pack sys s st) _ (connect_pack-IsMarked s st)
          (λ (r, st') k. elim (Bool-cases (is_zero r)) [ inl z ↦ rw z k | inr z ↦ rw z k ])

    pub pack_add-IsMarked :
        (packname : List ℕ) (s0 : Strings) (st : Setup World Number)
        → Yields (λ (r, st'). IsMarked st st') (pack_add sys packname s0 st)
    unfolding pack_add
    pack_add-IsMarked packname s0 st =
        Yields-bind (λ (r, st'). IsMarked st st') (λ (s, capacity, st'). IsMarked st st')
          (read_strings sys (packtab packname) packname s0 st) _
          (read_strings-IsMarked (packtab packname) packname s0 st)
          (λ (s, capacity, st1) k.
            Yields-if (λ (r, st'). IsMarked st st') (is_nil s.transport) _ _ k
              (Yields-bind (λ (r, st'). IsMarked st st') (λ (made, st'). IsMarked st1 st')
                (make_instance sys cellmon_type s st1) _ (make_instance-IsMarked cellmon_type s st1)
                (λ (made, st2) k2.
                  Yields-weaker (λ (r, st3). IsMarked st2 st3) (λ (r, st3). IsMarked st st3)
                    (finish_pack sys s capacity (made, st2))
                    (λ (r, st3) k3. IsMarked-trans st st2 st3 (IsMarked-trans st st1 st2 k k2) k3)
                    (finish_pack-IsMarked s capacity made st2))))
