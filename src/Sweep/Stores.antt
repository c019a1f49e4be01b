-- ===== src/Sweep/Stores.antt =====
-- What a sweep of both channels has stored at each turn, and that the handlers keep it so.
use nano_vna_x.Base.{
  ℕ, zero, suc, ◌+◌, ◌≤◌, ◌<◌, ◌≡◌, inl, inr, refl, sym, ◌∙◌, subst, ap, true, false, List, [], ◌∷◌,
  ◌++◌, map, append_assoc, take, leb, ◌==◌, arith, Bool-cases,
}
use mathlib.Core.List.{map-append}
use nano_vna_x.Sweep.Port.{Float}
use nano_vna_x.Sweep.State.{
  RfState, setup_freq, setup_measure, process, flag, ch0_measure, ch1_measure, Settings, Input,
  Store, Machine,
}
use nano_vna_x.Sweep.{
  sweep_stops, step_from, fsm_setup_freq, fsm_setup_measure, start_channel, fsm_process,
}
use nano_vna_x.Sweep.Stages.{
  point_plan, plan, Stage, first-Stage, over-Stage, capture-Stage, cycle-Stage,
}

module _ (fp : Float) where
  abbrev pub places : List (Store fp) → List (ℕ × ℕ)
  places stored = map (λ s. (s.channel, s.point)) stored

  abbrev pub BothChannels : Machine fp → Type 0
  BothChannels m = (flag m.mask ch0_measure ≡ true) × (flag m.mask ch1_measure ≡ true)

  -- Behind what is stored already: the points passed, and k values of the point in work.
  pub record IsRecorded (cfg : Settings fp) (base : List (ℕ × ℕ)) (s : RfState) (m : Machine fp)
      : Type 0 where
    pub both : BothChannels m
    pub passed : m.p_sweep ≤ cfg.points
    pub k : ℕ
    pub stage : Stage s m.current_cycle m.total_cycles m.channel_index k
    pub recorded : places m.stored ≡ (base ++ plan m.p_sweep) ++ take k (point_plan m.p_sweep)

  pub setup_freq-IsRecorded :
      (cfg : Settings fp) (i : Input fp) (base : List (ℕ × ℕ)) (m : Machine fp)
      → i.settling < 255
      → IsRecorded cfg base setup_freq m
      → IsRecorded cfg base
          (step_from fp setup_freq cfg i m).state
          (step_from fp setup_freq cfg i m)
  unfolding step_from fsm_setup_freq
  setup_freq-IsRecorded cfg i base m small r = elim (Bool-cases (sweep_stops fp cfg i m)) [
    | inl e ↦ rw e record {
      both = r.both;
      passed = r.passed;
      k = r.k;
      stage = r.stage.0;
      recorded = r.recorded;
    }
    | inr e ↦ rw e record {
      both = r.both;
      passed = r.passed;
      k = r.k;
      stage = rw r.both.0 (first-Stage i.settling r.k m.channel_index small r.stage.0 r.stage.1);
      recorded = r.recorded;
    }
  ]

  pub setup_measure-IsRecorded :
      (cfg : Settings fp) (i : Input fp) (base : List (ℕ × ℕ)) (m : Machine fp)
      → m.state ≡ setup_measure
      → IsRecorded cfg base setup_measure m
      → IsRecorded cfg base
          (step_from fp setup_measure cfg i m).state
          (step_from fp setup_measure cfg i m)
  unfolding step_from fsm_setup_measure start_channel
  setup_measure-IsRecorded cfg i base m at r =
      elim (Bool-cases (leb m.total_cycles m.current_cycle)) [
        | inl e ↦ rw e record {
          both = r.both;
          passed = r.passed;
          k = r.k;
          stage = over-Stage _ _ m.channel_index _ (ground arith) r.stage;
          recorded = r.recorded;
        }
        | inr e ↦
            let more : m.current_cycle < m.total_cycles = ground arith in
            rw (e, r.both.0, r.both.1)
              (elim (Bool-cases (m.channel_index == 0)) [
                | inl e0 ↦ rw e0 record {
                  both = r.both;
                  passed = r.passed;
                  k = r.k;
                  stage =
                      capture-Stage _ _ m.channel_index _ 0 more (ground arith) (omega arith)
                        r.stage;
                  recorded = r.recorded;
                }
                | inr e0 ↦ rw e0 (elim (Bool-cases (leb m.channel_index 1)) [
                  | inl e1 ↦ rw e1 record {
                    both = r.both;
                    passed = r.passed;
                    k = r.k;
                    stage =
                        capture-Stage _ _ m.channel_index _ 1 more (ground arith) (omega arith)
                          r.stage;
                    recorded = r.recorded;
                  }
                  | inr e1 ↦ rw e1 (
                      subst
                        (λ s.
                          IsRecorded cfg base s
                            (record m { current_cycle = m.current_cycle + 1; channel_index = 0 }))
                        (sym at)
                        record {
                          both = r.both;
                          passed = r.passed;
                          k = r.k;
                          stage = cycle-Stage _ _ m.channel_index _ more (ground arith) r.stage;
                          recorded = r.recorded;
                        })
                ])
              ])
      ]

  take_snoc :
      (ch p : ℕ) → ch ≤ 1 → take ch (point_plan p) ++ (ch, p) ∷ [] ≡ take (ch + 1) (point_plan p)
  take_snoc zero p low = refl
  take_snoc (suc zero) p low = refl
  take_snoc (suc (suc n)) p low = absurd (omega arith)

  -- A value that is stored for the channel in work.
  places-snoc :
      (stored : List (Store fp)) (store : Store fp) (base : List (ℕ × ℕ)) (k ch p : ℕ)
      → places stored ≡ base ++ take k (point_plan p)
      → k ≡ ch
      → ch ≤ 1
      → (store.channel ≡ ch) × (store.point ≡ p)
      → places (stored ++ store ∷ []) ≡ base ++ take (ch + 1) (point_plan p)
  places-snoc stored store base k ch p h same low (c, q) =
      map-append (λ s. (s.channel, s.point)) stored (store ∷ [])
      ∙ (λ i. h i ++ (c i, q i) ∷ [])
      ∙ append_assoc base (take k (point_plan p)) ((ch, p) ∷ [])
      ∙ ap (λ l. base ++ l)
          (ap (λ n. take n (point_plan p) ++ (ch, p) ∷ []) same ∙ take_snoc ch p low)

  pub process-IsRecorded :
      (cfg : Settings fp) (i : Input fp) (base : List (ℕ × ℕ)) (m : Machine fp)
      → IsRecorded cfg base process m
      → IsRecorded cfg base (step_from fp process cfg i m).state (step_from fp process cfg i m)
  unfolding step_from fsm_process
  process-IsRecorded cfg i base m r = elim r.stage [
    | inl (c, none_yet, low) ↦
        let not_final : (m.current_cycle + 1 == m.total_cycles) ≡ false = ground arith in
        rw not_final record {
          both = r.both;
          passed = r.passed;
          k = r.k;
          stage = inl (c, none_yet, omega arith);
          recorded = r.recorded;
        }
    | inr (c, same, low) ↦
        let final : (m.current_cycle + 1 == m.total_cycles) ≡ true = ground arith in
        rw final record {
          both = r.both;
          passed = r.passed;
          k = m.channel_index + 1;
          stage = inr (inl (c, omega arith, omega arith));
          recorded =
              places-snoc m.stored _ (base ++ plan m.p_sweep) r.k m.channel_index m.p_sweep
                r.recorded same low (refl, refl);
        }
  ]
