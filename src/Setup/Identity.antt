-- ===== src/Setup/Identity.antt =====
-- The UUID of a pack or an inverter: it has one afterwards, which the configuration gives back.
use mybmm.Base.{
  ℕ, ◌<◌, ◌≡◌, refl, true, false, none, some, List, [], ◌∷◌, length, map, if◌then◌else◌, ltb, ◌&&◌,
  arith, set_state,
}
use mybmm.Strings.{is_nil, to_upper, same_string}
use mybmm.Cfg.{CfgInfo, cfg_get_item}
use mybmm.Cfg.Access.{cfg_get_item-cfg_set_item}
use mybmm.Setup.{Setup, System, Strings, config_dirty, uuid_keyword}
use mybmm.Setup.Add.{ensure_uuid}

module _ {World Number : Type 0} (sys : System World Number) where
  -- Where a pack or an inverter without a UUID is set up with a configuration file, new UUIDs are 36 characters
  -- long, and names of sections and keywords are shorter than 64, it gets the new one, `conf` is marked for the file to be saved, `cfg_get_item` gives that UUID for its section from then
  -- on, and what it gives for other sections and keywords is as before. A further set-up with this UUID keeps it and the configuration.
  pub ensure_uuid-new :
      (section : List ℕ) (s : Strings) (st : Setup World Number) (info : CfgInfo)
      (section2 keyword2 : List ℕ)
      → ((w : World) → length (sys.new_uuid w).0 ≡ 36)
      → length section < 64
      → length section2 < 64
      → length keyword2 < 64
      → st.cfg ≡ some info
      → s.uuid ≡ []
      → (s' : Strings) × (st' : Setup World Number) × (ensure_uuid sys section s st
          ≡ some (s', st'))
        × (s'.uuid ≡ (sys.new_uuid st.world).0)
        × (st'.state ≡ set_state st.state config_dirty)
        × (cfg_get_item st'.cfg section2 keyword2 ≡ (
            if same_string (map to_upper section) (map to_upper section2)
              && same_string (map to_upper uuid_keyword) (map to_upper keyword2)
            then some (some s'.uuid)
            else cfg_get_item st.cfg section2 keyword2))
        × (ensure_uuid sys section s' st' ≡ some (s', st'))
  unfolding ensure_uuid
  ensure_uuid-new section s st info section2 keyword2 long fits fits2 kfits2 there empty =
      let uuid = (sys.new_uuid st.world).0 in
      let (info', made, got) =
        cfg_get_item-cfg_set_item info section uuid_keyword section2 keyword2 none uuid fits
          (omega arith) fits2 kfits2 in
      let room : ltb (length uuid) 37 ≡ true = ground (arith, long st.world) in
      let filled : is_nil uuid ≡ false = not_nil uuid (long st.world) in
      (
        record s { uuid = uuid },
        record st {
          cfg = some info';
          state = set_state st.state config_dirty;
          world = (sys.new_uuid st.world).1;
        },
        rw (empty, room, there, made) refl,
        refl,
        refl,
        rw there got,
        rw filled refl,
      )
    where
      not_nil : (u : List ℕ) → length u ≡ 36 → is_nil u ≡ false
      not_nil [] e = absurd (omega arith)
      not_nil (c ∷ cs) e = refl
