-- ===== src/Setup/Controls.antt =====
-- What `pack_init` finds out about the packs, and how many it adds.
use mybmm.Base.{
  ◌≤◌, ◌≡◌, refl, sym, ap, ap₂, ◌∙◌, Bool, true, false, not, ◌&&◌, ◌||◌, some, List, [], ◌∷◌, ◌++◌,
  length, if◌then◌else◌, arith, pos, bit, check_state, Bool-cases, inl, inr, bind-eq-some,
  replicate, Yields-some, All, subst, ◌==◌,
}
use mybmm.Setup.{Setup, System, Added, charge_control_bit, discharge_control_bit, max_packs}
use mybmm.Setup.Start.{add_packs, controls, set_if, set_controls, start_pool, pack_init}
use mybmm.Setup.Packs.{IsMade, GrowsTo, add_packs-GrowsTo}
use mybmm.Worker.{created, worker_create_pool}

-- whether every element passes the test
unfoldable pub all_of {ℓ} : {A : Type ℓ} → (A → Bool) → List A → Bool
all_of p [] = true
all_of p (x ∷ xs) = p x && all_of p xs

module _ {World Number : Type 0} where
  abbrev pub charges : Added World Number → Bool
  charges pp = check_state pp.capabilities (bit charge_control_bit)

  abbrev pub discharges : Added World Number → Bool
  discharges pp = check_state pp.capabilities (bit discharge_control_bit)

  -- The loop that `pack_init` has for it tells whether all packs have charge control; for discharge control it tells
  -- whether all of the packs that have charge control have it too.
  pub controls_lem :
      (c d : Bool) (pps : List (Added World Number))
      → controls c d pps
        ≡ (c && all_of charges pps, d && all_of (λ pp. not (charges pp) || discharges pp) pps)
  unfolding controls all_of
  controls_lem c d [] = ap₂ (λ a b. (a, b)) (ground arith) (ground arith)
  controls_lem c d (pp ∷ pps) = elim (Bool-cases (charges pp)) [
    | inl h ↦ elim (Bool-cases (discharges pp)) [
      | inl h2 ↦ rw (h, h2) (controls_lem c d pps)
      | inr h2 ↦
          rw (h, h2)
            (controls_lem c false pps ∙ ap (λ b. (c && all_of charges pps, b)) (ground arith))
    ]
    | inr h ↦ rw h (
        controls_lem false d pps
        ∙ ap (λ b. (b, d && all_of (λ pp. not (charges pp) || discharges pp) pps)) (ground arith))
  ]

  -- What `pack_init` leaves where it returns 0.
  abbrev pub IsReady : Setup World Number → Setup World Number → Type 0
  IsReady st st' =
      (length st'.packs ≤ max_packs)
      × All IsMade st'.packs
      × (st'.pack_pool ≡ (
          if length st'.packs == 0
          then st.pack_pool
          else some (replicate (length st'.packs) created)))
      × (st'.capabilities ≡ (
          if length st'.packs == 0
          then st.capabilities
          else set_if (all_of (λ pp. not (charges pp) || discharges pp) st'.packs)
              (bit discharge_control_bit)
              (set_if (all_of charges st'.packs) (bit charge_control_bit) st.capabilities)))

  module _ (sys : System World Number) where
    start_pool-IsReady :
        (st s1 st' : Setup World Number) (ended : Bool)
        → st.packs ≡ []
        → GrowsTo max_packs st s1
        → start_pool sys (ended, s1) ≡ (pos 0, st')
        → IsReady st st'
    unfolding start_pool worker_create_pool set_controls
    start_pool-IsReady st s1 st' false no_packs g e = absurd (ground arith)
    start_pool-IsReady st s1 st' true no_packs (c, l, added, p, short, made) e =
        let is : s1.packs ≡ added = p ∙ ap (λ ps. ps ++ added) no_packs in
        let fits : length s1.packs ≤ max_packs = omega (arith, ap length is) in
        let all_made : All IsMade s1.packs = subst (All IsMade) (sym is) made in
        elim (Bool-cases (length s1.packs == 0)) [
          | inl z ↦
              let stopped : start_pool sys (true, s1) ≡ (pos 0, s1) = rw z refl in
              let same : s1 ≡ st' = cc (stopped, e) in
              subst (IsReady st) same (fits, all_made, rw z l, rw z c)
          | inr z ↦ elim (Bool-cases sys.has_memory) [
            | inl m ↦
                let s2 : Setup World Number = record s1 {
                  pack_pool = some (replicate (length s1.packs) created);
                } in
                let started : start_pool sys (true, s1) ≡ (pos 0, set_controls sys s2) =
                  rw (z, m) refl in
                let same : set_controls sys s2 ≡ st' = cc (started, e) in
                subst (IsReady st) same (
                  fits,
                  all_made,
                  rw z refl,
                  rw z (
                      ap₂
                        (λ d c.
                          set_if d (bit discharge_control_bit)
                            (set_if c (bit charge_control_bit) s1.capabilities))
                        (ap (λ cd. cd.1) (controls_lem true true s1.packs))
                        (ap (λ cd. cd.0) (controls_lem true true s1.packs))
                      ∙ ap
                          (λ n.
                            set_if (all_of (λ pp. not (charges pp) || discharges pp) s1.packs)
                              (bit discharge_control_bit)
                              (set_if (all_of charges s1.packs) (bit charge_control_bit) n))
                          c),
                )
            | inr m ↦
                let stopped : start_pool sys (true, s1) ≡ (pos 1, s1) = rw (z, m) refl in
                absurd (ground (arith, stopped))
          ]
        ]

    -- Where `pack_init` returns 0 and there were no packs before, there are at most 32, each an instance with the
    -- capabilities of its module. Where there is one, the pool has an idle worker for each pack; charge
    -- control is added to the capabilities of the configuration where all packs have it, and discharge control where no
    -- pack with charge control is without it: a pack without charge control does not count, although the comments in
    -- config.h and pack.c speak of all packs. A capability that was there before stays.
    pub pack_init-IsReady :
        (st st' : Setup World Number)
        → st.packs ≡ []
        → pack_init sys st ≡ some (pos 0, st')
        → IsReady st st'
    unfolding pack_init
    pack_init-IsReady st st' no_packs e =
        let ((ended, s1), added, started) =
          bind-eq-some (add_packs sys max_packs 0 st) (λ a. some (start_pool sys a)) e in
        let grows : GrowsTo max_packs st s1 =
          Yields-some (λ (ended, s1). GrowsTo max_packs st s1) (add_packs sys max_packs 0 st)
            (ended, s1) (add_packs-GrowsTo sys max_packs 0 st) added in
        start_pool-IsReady st s1 st' ended no_packs grows (cc started)
