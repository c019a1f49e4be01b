-- ===== src/Sweep/Slices.antt =====
-- Calls of a sweep of both channels, also those that go on with a sweep that was cut short.
use nano_vna_x.Base.{
  ℕ, ◌+◌, ◌*◌, ◌^◌, ◌≤◌, ◌<◌, ◌≡◌, ◌⊎◌, inl, inr, refl, sym, ◌∙◌, subst, ap, Bool, true, false,
  some, List, ◌++◌, append-nil, take, leb, ◌==◌, arith, Bool-cases, if◌then◌else◌, ◌&&◌, ◌||◌, not,
}
use nano_vna_x.Sweep.Port.{Float}
use nano_vna_x.Sweep.State.{
  RfState, idle, setup_freq, fault, flag, ch0_measure, ch1_measure, Settings, Input, Machine,
  publish_progress, sweep_progress_end, sweep_progress_begin, sweep_led_begin, sweep_led_end,
  sweep_prepare_led_and_progress,
}
use nano_vna_x.Sweep.{is_over, is_fault, exit_failure, exit_loop, enter, restart, prepare, sweep}
use nano_vna_x.Sweep.Termination.{fsm_loop-ends, setup_freq-rank}
use nano_vna_x.Sweep.Returns.{enter-state}
use nano_vna_x.Sweep.Stores.{places, IsRecorded}
use nano_vna_x.Sweep.Loop.{fsm_loop-IsRecorded}
use nano_vna_x.Sweep.Stages.{plan, point_plan}

-- A mask with a bit set is not 0.
mask-nonzero : (mask : ℕ) → flag mask ch0_measure ≡ true → (mask == 0) ≡ false
unfolding flag
mask-nonzero mask h = ground arith

module _ (fp : Float) where
  -- The point that a call goes on from.
  abbrev pub first_point : Settings fp → Bool → Machine fp → ℕ
  first_point cfg brk m = if leb cfg.points m.p_sweep || not brk then 0 else m.p_sweep

  entered-same :
      (cfg : Settings fp) (brk : Bool) (mask : ℕ) (i : Input fp) (m : Machine fp)
      → ((prepare fp cfg (restart fp cfg (enter fp cfg brk mask i m))).stored ≡ m.stored)
        × ((prepare fp cfg (restart fp cfg (enter fp cfg brk mask i m))).mask ≡ mask)
        × ((prepare fp cfg (restart fp cfg (enter fp cfg brk mask i m))).channel_index ≡ 0)
        × ((prepare fp cfg (restart fp cfg (enter fp cfg brk mask i m))).p_sweep
            ≡ first_point cfg brk m)
  unfolding prepare restart enter sweep_led_end sweep_progress_end publish_progress
      sweep_prepare_led_and_progress sweep_progress_begin sweep_led_begin
  entered-same cfg brk mask i m = (ground arith, ground arith, ground arith, ground arith)

  -- A loop that ends without a fault has ended between two points.
  idle-recorded :
      (s : RfState) (cfg : Settings fp) (base : List (ℕ × ℕ)) (m : Machine fp)
      → is_over s ≡ true
      → is_fault s ≡ false
      → IsRecorded fp cfg base s m
      → places fp m.stored ≡ base ++ plan m.p_sweep
  unfolding is_over is_fault
  idle-recorded idle cfg base m over fine r =
      r.recorded
      ∙ ap (λ n. (base ++ plan m.p_sweep) ++ take n (point_plan m.p_sweep)) r.stage
      ∙ append-nil _
  idle-recorded fault cfg base m over fine r = absurd (ground arith)
  idle-recorded s cfg base m over fine r = absurd (ground arith)

  -- What a call leaves that has not failed, and one that has.
  abbrev pub IsSlice : Settings fp → List (ℕ × ℕ) → Bool × Machine fp → Type 0
  IsSlice cfg base (completed, last) =
      ((places fp last.stored ≡ base ++ plan last.p_sweep)
        × (last.p_sweep ≤ cfg.points)
        × (completed ≡ leb cfg.points last.p_sweep))
      ⊎ ((completed ≡ false) × (last.p_sweep ≡ 0))

  exit_loop-IsSlice :
      (cfg : Settings fp) (base : List (ℕ × ℕ)) (m : Machine fp)
      → is_over m.state ≡ true
      → IsRecorded fp cfg base m.state m
      → IsSlice cfg base (exit_loop fp cfg m)
  unfolding exit_loop exit_failure sweep_led_end sweep_progress_end publish_progress
  exit_loop-IsSlice cfg base m over r = elim (Bool-cases (is_fault m.state)) [
    | inl e ↦ rw e (inr (refl, ground arith))
    | inr e ↦
        let h = idle-recorded m.state cfg base m over e r in
        rw e (elim (Bool-cases (leb cfg.points m.p_sweep)) [
          | inl e1 ↦ rw e1 (elim (Bool-cases m.progress_active) [
            | inl e2 ↦ elim (Bool-cases cfg.has_bus) [
              | inl e3 ↦ rw (e2, e3) (inl (h, r.passed, sym e1))
              | inr e3 ↦ rw (e2, e3) (inl (h, r.passed, sym e1))
            ]
            | inr e2 ↦ rw e2 (inl (h, r.passed, sym e1))
          ])
          | inr e1 ↦ rw e1 (inl (h, r.passed, sym e1))
        ])
  ]

  start-IsRecorded :
      (cfg : Settings fp) (brk : Bool) (mask : ℕ) (base : List (ℕ × ℕ)) (i : Input fp)
      (m : Machine fp)
      → flag mask ch0_measure ≡ true
      → flag mask ch1_measure ≡ true
      → places fp m.stored ≡ base ++ plan (first_point cfg brk m)
      → IsRecorded fp cfg base setup_freq
          (prepare fp cfg (restart fp cfg (enter fp cfg brk mask i m)))
  start-IsRecorded cfg brk mask base i m has0 has1 before =
      let (same_stored, same_mask, channel, place) = entered-same cfg brk mask i m in
      record {
        both = (
          ap (λ b. flag b ch0_measure) same_mask ∙ has0,
          ap (λ b. flag b ch1_measure) same_mask ∙ has1,
        );
        passed = (let low : first_point cfg brk m ≤ cfg.points = ground arith in omega arith);
        k = 0;
        stage = (refl, channel);
        recorded =
            ap (places fp) same_stored
            ∙ before
            ∙ ap (λ n. base ++ plan n) (sym place)
            ∙ sym (append-nil _);
      }

  -- For a sweep of both channels over at most 65535 points, with fewer than 255 settling cycles at
  -- each point, let what is stored at the call be `base` and then both channels of each point before
  -- the one that the call goes on from (0 if all points are passed or the call may not be broken
  -- off). The call returns within 2200 turns for a point and 2200 more. Either it has failed, and the
  -- next call starts again at point 0; or what is stored then is `base` and both channels of each
  -- point before the one that is reached, each once and in order, and the call says that the sweep
  -- is complete exactly if that is all points.
  pub sweep-stores :
      (cfg : Settings fp) (inputs : ℕ → Input fp) (brk : Bool) (mask : ℕ) (base : List (ℕ × ℕ))
      (m : Machine fp)
      → cfg.points < 2 ^ 16
      → ((j : ℕ) → (inputs j).settling < 255)
      → flag mask ch0_measure ≡ true
      → flag mask ch1_measure ≡ true
      → places fp m.stored ≡ base ++ plan (first_point cfg brk m)
      → (result : Bool × Machine fp) × (sweep fp (2200 * (cfg.points + 1)) cfg inputs brk mask m
          ≡ some result)
        × IsSlice cfg base result
  unfolding sweep
  sweep-stores cfg inputs brk mask base m small settled has0 has1 before =
      let nonzero = mask-nonzero mask has0 in
      let measures : (brk && (mask == 0)) ≡ false = ground arith in
      let start = prepare fp cfg (restart fp cfg (enter fp cfg brk mask (inputs 0) m)) in
      let at : start.state ≡ setup_freq = enter-state fp cfg brk mask (inputs 0) m in
      let (sane, enough) = setup_freq-rank fp cfg start at in
      let (last, ends, over) =
        fsm_loop-ends fp (2200 * (cfg.points + 1)) cfg inputs 1 start small sane enough in
      let r = start-IsRecorded cfg brk mask base (inputs 0) m has0 has1 before in
      let r' =
        fsm_loop-IsRecorded fp _ cfg inputs 1 base start last small settled sane
          (subst (λ s. IsRecorded fp cfg base s start) (sym at) r) ends in
      rw (measures, ends) (exit_loop fp cfg last, refl, exit_loop-IsSlice cfg base last over r')
