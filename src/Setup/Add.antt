-- ===== src/Setup/Add.antt =====
-- `pack_add` and the steps that a pack and the inverter have in common.
use mybmm.Base.{
  ℕ, not, Option, none, some, ◌>>=◌, List, [], ◌∷◌, ◌++◌, ◌==◌, ltb, length, if◌then◌else◌, ℤ, pos,
  is_zero, set_state,
}
use mybmm.Strings.{is_nil}
use mybmm.Cfg.{cfg_set_item}
use mybmm.Cfg.Table.{Entry, cfg_get_tab}
use mybmm.Modules.{Module, cellmon_type, transport_type, mybmm_load_module}
use mybmm.Setup.{
  Setup, System, Added, Strings, config_dirty, uuid_keyword, packtab, store_table, own_name,
}

module _ {World Number : Type 0} (sys : System World Number) where
  open sys use {atof, dlsym, new_uuid, create, connect, set_callback, has_memory}

  -- "if we dont have a UUID, gen one", for a pack or an inverter
  unfoldable pub ensure_uuid :
      List ℕ → Strings → Setup World Number → Option (Strings × Setup World Number)
  unfolding cfg_set_item set_state
  ensure_uuid section s st =
      let (uuid, w) = new_uuid st.world in
      if not (is_nil s.uuid)
      then some (s, st)
      else if ltb (length uuid) 37
      then (do
        (_, cfg) ← cfg_set_item st.cfg section uuid_keyword none (some uuid)
        some (
          record s { uuid = uuid },
          record st { cfg = cfg; state = set_state st.state config_dirty; world = w },
        ))
      else none

  -- the table of the section, the name and the UUID
  unfoldable pub read_strings :
      List Entry
      → List ℕ
      → Strings
      → Setup World Number
      → Option (Strings × Option Number × Setup World Number)
  unfolding cfg_get_tab store_table own_name ensure_uuid
  read_strings tab section s0 st = do
    stored ← cfg_get_tab atof st.cfg tab
    named ← own_name section (store_table stored s0 none).0
    (s, st') ← ensure_uuid section named st
    some (s, (store_table stored s0 none).1, st')

  unfoldable pub load :
      Setup World Number → List ℕ → ℕ → Option (Option (Module World) × Setup World Number)
  unfolding mybmm_load_module
  load st name kind = do
    (found, modules, w) ← mybmm_load_module dlsym st.modules st.world name kind
    some (found, record st { modules = modules; world = w })

  -- "Create an instance", without a capacity; `none` inside is a return of 1.
  unfoldable pub instance_of :
      Strings
      → Option (Module World)
      → Option (Module World)
      → Setup World Number
      → Option (Added World Number) × Setup World Number
  instance_of s none mp st = (none, st)
  instance_of s (some tp) none st = (none, st)
  instance_of s (some tp) (some mp) st =
      let (handle, w) = create mp s tp st.world in
      let st' = record st { world = w } in
      if handle == 0 then (none, st') else (
        some (record {
          strings = s;
          capacity = none;
          capabilities = mp.capabilities;
          handle = handle;
          funcs = mp;
        }),
        st',
      )

  -- The module is only loaded where the transport was.
  unfoldable pub load_second :
      ℕ
      → Strings
      → Option (Module World) × Setup World Number
      → Option (Option (Added World Number) × Setup World Number)
  unfolding load instance_of
  load_second kind s (none, st) = some (none, st)
  load_second kind s (some tp, st) = do
    (mp, st') ← load st s.type_name kind
    some (instance_of s (some tp) mp st')

  unfoldable pub make_instance :
      ℕ → Strings → Setup World Number → Option (Option (Added World Number) × Setup World Number)
  unfolding load load_second
  make_instance kind s st = do found ← load st s.transport transport_type; load_second kind s found

  -- the connection to the broker, where one is set: what is returned otherwise goes on
  unfoldable pub connect_pack : Strings → Setup World Number → Option (ℤ × Setup World Number)
  connect_pack s st =
      let topic = st.mqtt_topic ++ 47 ∷ s.name in
      let (r, w) = connect topic s.name st.world in
      if is_nil st.mqtt_broker
      then some (pos 0, st)
      else if not (ltb (length topic) 192)
      then none
      else if is_zero r
      then some (pos 0, record st { world = set_callback w })
      else some (pos 1, record st { world = w })

  -- the part of `pack_add` behind the instance
  unfoldable pub finish_pack :
      Strings
      → Option Number
      → Option (Added World Number) × Setup World Number
      → Option (ℤ × Setup World Number)
  unfolding connect_pack
  finish_pack s capacity (none, st) = some (pos 1, st)
  finish_pack s capacity (some pp, st) = do
    (r, st') ← connect_pack s st
    some (
        if is_zero r
        then (pos 0, record st' { packs = st'.packs ++ (record pp { capacity = capacity }) ∷ [] })
        else (pos 1, st'))

  -- What is returned, and the configuration. `s0` is what the strings of the pack hold before. A pack
  -- without a transport is not added.
  unfoldable pub pack_add : List ℕ → Strings → Setup World Number → Option (ℤ × Setup World Number)
  unfolding read_strings make_instance finish_pack
  pack_add packname s0 st = do
    (s, capacity, st1) ← read_strings (packtab packname) packname s0 st
    if is_nil s.transport
        then some (pos 0, st1)
        else do made ← make_instance cellmon_type s st1; finish_pack s capacity made
