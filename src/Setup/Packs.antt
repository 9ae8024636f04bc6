-- ===== src/Setup/Packs.antt =====
-- What `pack_add` and the loop of `pack_init` do to the list of the packs.
use mybmm.Base.{
  ℕ, zero, suc, ◌≤◌, ◌≡◌, refl, sym, ap, ◌∙◌, Bool, not, Option, none, some, List, [], ◌∷◌, ◌++◌,
  length, arith, is_zero, Bool-cases, inl, inr, ◌==◌, ◌⊎◌, All, ltb, append-nil, append_assoc,
  Yields, Yields-bind, Yields-any, Yields-if, Yields-weaker,
}
use mybmm.Strings.{is_nil}
use mybmm.Cfg.{cfg_get_item, cfg_set_item}
use mybmm.Cfg.Table.{Entry, cfg_get_tab}
use mybmm.Modules.{Module, mybmm_load_module, cellmon_type, transport_type}
use mybmm.Setup.{
  Setup, System, Strings, Added, type_keyword, pack_name, packtab, uuid_keyword, no_strings,
  store_table, own_name,
}
use mybmm.Setup.Add.{
  ensure_uuid, read_strings, load, instance_of, load_second, make_instance, connect_pack,
  finish_pack, pack_add,
}
use mybmm.Setup.Start.{next_pack, add_packs}

module _ {World Number : Type 0} where
  -- The fields that only `pack_init` changes, and the packs.
  abbrev pub Keeps : Setup World Number → Setup World Number → Type 0
  Keeps st st' =
      (st'.packs ≡ st.packs) × (st'.capabilities ≡ st.capabilities) × (st'.pack_pool ≡ st.pack_pool)

  -- An instance that is not null, with the capabilities of its module.
  abbrev pub IsMade : Added World Number → Type 0
  IsMade pp = ¬ (pp.handle ≡ 0) × (pp.capabilities ≡ pp.funcs.capabilities)

  Keeps-trans : (a b c : Setup World Number) → Keeps a b → Keeps b c → Keeps a c
  Keeps-trans a b c (p, q, r) (p2, q2, r2) = (p2 ∙ p, q2 ∙ q, r2 ∙ r)

  abbrev MadeIfAny : Option (Added World Number) → Type 0
  MadeIfAny none = Unit
  MadeIfAny (some pp) = IsMade pp

  abbrev GivesMade : Option (Added World Number) × Setup World Number → Setup World Number → Type 0
  GivesMade (made, st') st = MadeIfAny made × Keeps st st'

  -- At most one pack is added, behind the others, with an instance.
  abbrev Grows : Setup World Number → Setup World Number → Type 0
  Grows st st' =
      (st'.capabilities ≡ st.capabilities)
      × (st'.pack_pool ≡ st.pack_pool)
      × ((st'.packs ≡ st.packs)
          ⊎ ((pp : Added World Number) × (st'.packs ≡ st.packs ++ pp ∷ []) × IsMade pp))

  -- `n` turns of the loop of `pack_init` add at most `n` packs, all with instances.
  abbrev pub GrowsTo : ℕ → Setup World Number → Setup World Number → Type 0
  GrowsTo n st st' =
      (st'.capabilities ≡ st.capabilities)
      × (st'.pack_pool ≡ st.pack_pool)
      × (added : List (Added World Number)) × (st'.packs ≡ st.packs ++ added)
      × (length added ≤ n)
      × All IsMade added

  All-append :
      (xs ys : List (Added World Number)) → All IsMade xs → All IsMade ys → All IsMade (xs ++ ys)
  All-append [] ys a b = b
  All-append (x ∷ xs) ys (h, a) b = (h, All-append xs ys a b)

  Grows-GrowsTo :
      (n : ℕ) (st st' st2 : Setup World Number)
      → Grows st st'
      → GrowsTo n st' st2
      → GrowsTo (suc n) st st2
  Grows-GrowsTo n st st' st2 (c, l, inl p) (c2, l2, added, p2, short, made) =
      (c2 ∙ c, l2 ∙ l, added, p2 ∙ ap (λ ps. ps ++ added) p, omega arith, made)
  Grows-GrowsTo n st st' st2 (c, l, inr (pp, p, y)) (c2, l2, added, p2, short, made) = (
    c2 ∙ c,
    l2 ∙ l,
    pp ∷ added,
    p2 ∙ (ap (λ ps. ps ++ added) p ∙ append_assoc st.packs (pp ∷ []) added),
    omega arith,
    (y, made),
  )

  module _ (sys : System World Number) where
    ensure_uuid-Keeps :
        (section : List ℕ) (s : Strings) (st : Setup World Number)
        → Yields (λ (s', st'). Keeps st st') (ensure_uuid sys section s st)
    unfolding ensure_uuid
    ensure_uuid-Keeps section s st = elim (Bool-cases (is_nil s.uuid)) [
      | inl h ↦ elim (Bool-cases (ltb (length (sys.new_uuid st.world).0) 37)) [
        | inl room ↦
            rw (h, room)
              (Yields-any (λ (s', st'). Keeps st st')
                (cfg_set_item st.cfg section uuid_keyword none (some (sys.new_uuid st.world).0)) _
                (λ (r, cfg). (refl, refl, refl)))
        | inr big ↦ rw (h, big) tt
      ]
      | inr h ↦ rw h (refl, refl, refl)
    ]

    read_strings-Keeps :
        (tab : List Entry) (section : List ℕ) (s0 : Strings) (st : Setup World Number)
        → Yields (λ (s, capacity, st'). Keeps st st') (read_strings sys tab section s0 st)
    unfolding read_strings
    read_strings-Keeps tab section s0 st =
        Yields-any (λ (s, capacity, st'). Keeps st st') (cfg_get_tab sys.atof st.cfg tab) _
          (λ stored.
            Yields-any (λ (s, capacity, st'). Keeps st st')
              (own_name section (store_table stored s0 none).0) _
              (λ named.
                Yields-bind (λ (s, capacity, st'). Keeps st st') (λ (s', st'). Keeps st st')
                  (ensure_uuid sys section named st) _ (ensure_uuid-Keeps section named st)
                  (λ (s', st') k. k)))

    load-Keeps :
        (st : Setup World Number) (name : List ℕ) (kind : ℕ)
        → Yields (λ (found, st'). Keeps st st') (load sys st name kind)
    unfolding load
    load-Keeps st name kind =
        Yields-any (λ (found, st'). Keeps st st')
          (mybmm_load_module sys.dlsym st.modules st.world name kind) _
          (λ (found, modules, w). (refl, refl, refl))

    instance_of-GivesMade :
        (s : Strings) (tp mp : Option (Module World)) (st : Setup World Number)
        → GivesMade (instance_of sys s tp mp st) st
    unfolding instance_of
    instance_of-GivesMade s none mp st = (tt, (refl, refl, refl))
    instance_of-GivesMade s (some tp) none st = (tt, (refl, refl, refl))
    instance_of-GivesMade s (some tp) (some mp) st =
        elim (Bool-cases ((sys.create mp s tp st.world).0 == 0)) [
          | inl h ↦ rw h (tt, (refl, refl, refl))
          | inr h ↦
              let there : ¬ ((sys.create mp s tp st.world).0 ≡ 0) = ground arith in
              rw h ((there, refl), (refl, refl, refl))
        ]

    load_second-GivesMade :
        (kind : ℕ) (s : Strings) (tp : Option (Module World)) (st : Setup World Number)
        → Yields (λ made. GivesMade made st) (load_second sys kind s (tp, st))
    unfolding load_second
    load_second-GivesMade kind s none st = (tt, (refl, refl, refl))
    load_second-GivesMade kind s (some tp) st =
        Yields-bind (λ made. GivesMade made st) (λ (found, st'). Keeps st st')
          (load sys st s.type_name kind) _ (load-Keeps st s.type_name kind)
          (λ (mp, st') k.
            let (made, k2) = instance_of-GivesMade s (some tp) mp st' in
            (made, Keeps-trans st st' (instance_of sys s (some tp) mp st').1 k k2))

    make_instance-GivesMade :
        (kind : ℕ) (s : Strings) (st : Setup World Number)
        → Yields (λ made. GivesMade made st) (make_instance sys kind s st)
    unfolding make_instance
    make_instance-GivesMade kind s st =
        Yields-bind (λ made. GivesMade made st) (λ (found, st'). Keeps st st')
          (load sys st s.transport transport_type) _ (load-Keeps st s.transport transport_type)
          (λ (tp, st') k.
            Yields-weaker (λ made. GivesMade made st') (λ made. GivesMade made st)
              (load_second sys kind s (tp, st'))
              (λ (made, st2) (y, k2). (y, Keeps-trans st st' st2 k k2))
              (load_second-GivesMade kind s tp st'))

    connect_pack-Keeps :
        (s : Strings) (st : Setup World Number)
        → Yields (λ (r, st'). Keeps st st') (connect_pack sys s st)
    unfolding connect_pack
    connect_pack-Keeps s st =
        Yields-if (λ (r, st'). Keeps st st') (is_nil st.mqtt_broker) _ _ (refl, refl, refl)
          (Yields-if (λ (r, st'). Keeps st st')
            (not (ltb (length (st.mqtt_topic ++ 47 ∷ s.name)) 192)) none _ tt
            (Yields-if (λ (r, st'). Keeps st st')
              (is_zero (sys.connect (st.mqtt_topic ++ 47 ∷ s.name) s.name st.world).0) _ _
              (refl, refl, refl) (refl, refl, refl)))

    finish_pack-Grows :
        (s : Strings) (capacity : Option Number) (made : Option (Added World Number))
        (st st' : Setup World Number)
        → GivesMade (made, st') st
        → Yields (λ (r, st2). Grows st st2) (finish_pack sys s capacity (made, st'))
    unfolding finish_pack
    finish_pack-Grows s capacity none st st' (y, (p, c, l)) = (c, l, inl p)
    finish_pack-Grows s capacity (some pp) st st' (y, k) =
        Yields-bind (λ (r, st2). Grows st st2) (λ (r, st2). Keeps st' st2) (connect_pack sys s st')
          _ (connect_pack-Keeps s st')
          (λ (r, st2) k2.
            let (p, c, l) = Keeps-trans st st' st2 k k2 in
            elim (Bool-cases (is_zero r)) [
              | inl z ↦ rw z (
                c,
                l,
                inr (
                  record pp { capacity = capacity },
                  ap (λ ps. ps ++ (record pp { capacity = capacity }) ∷ []) p,
                  y,
                ),
              )
              | inr z ↦ rw z (c, l, inl p)
            ])

    pub pack_add-Grows :
        (packname : List ℕ) (s0 : Strings) (st : Setup World Number)
        → Yields (λ (r, st'). Grows st st') (pack_add sys packname s0 st)
    unfolding pack_add
    pack_add-Grows packname s0 st =
        Yields-bind (λ (r, st'). Grows st st') (λ (s, capacity, st1). Keeps st st1)
          (read_strings sys (packtab packname) packname s0 st) _
          (read_strings-Keeps (packtab packname) packname s0 st)
          (λ (s, capacity, st1) k.
            Yields-if (λ (r, st'). Grows st st') (is_nil s.transport) _ _ (k.1, k.2, inl k.0)
              (Yields-bind (λ (r, st'). Grows st st') (λ made. GivesMade made st1)
                (make_instance sys cellmon_type s st1) _
                (make_instance-GivesMade cellmon_type s st1)
                (λ (made, st2) (y, k2).
                  finish_pack-Grows s capacity made st st2 (y, Keeps-trans st st1 st2 k k2))))

    next_pack-GrowsTo :
        (n i : ℕ) (more : Setup World Number → Option (Bool × Setup World Number))
        (found : Option (List ℕ)) (st : Setup World Number)
        → ((st' : Setup World Number) → Yields (λ (ended, st2). GrowsTo n st' st2) (more st'))
        → Yields (λ (ended, st2). GrowsTo (suc n) st st2) (next_pack sys more i found st)
    unfolding next_pack
    next_pack-GrowsTo n i more none st h =
        (refl, refl, [], sym (append-nil st.packs), omega arith, tt)
    next_pack-GrowsTo n i more (some v) st h =
        Yields-bind (λ (ended, st2). GrowsTo (suc n) st st2) (λ (r, st'). Grows st st')
          (pack_add sys (pack_name (suc i)) no_strings st) _
          (pack_add-Grows (pack_name (suc i)) no_strings st)
          (λ (r, st') g. elim (Bool-cases (is_zero r)) [
            | inl z ↦ rw z (
                Yields-weaker (λ (ended, st2). GrowsTo n st' st2)
                  (λ (ended, st2). GrowsTo (suc n) st st2) (more st')
                  (λ (ended, st2) k. Grows-GrowsTo n st st' st2 g k) (h st'))
            | inr z ↦ rw z (
                Grows-GrowsTo n st st' st' g
                  (refl, refl, [], sym (append-nil st'.packs), omega arith, tt))
          ])

    pub add_packs-GrowsTo :
        (n i : ℕ) (st : Setup World Number)
        → Yields (λ (ended, st'). GrowsTo n st st') (add_packs sys n i st)
    unfolding add_packs
    add_packs-GrowsTo zero i st = (refl, refl, [], sym (append-nil st.packs), omega arith, tt)
    add_packs-GrowsTo (suc n) i st =
        Yields-any (λ (ended, st'). GrowsTo (suc n) st st')
          (cfg_get_item st.cfg (pack_name (suc i)) type_keyword) _
          (λ found.
            next_pack-GrowsTo n i (λ st'. add_packs sys n (suc i) st') found st
              (λ st'. add_packs-GrowsTo n (suc i) st'))
