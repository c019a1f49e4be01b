-- ===== src/Sweep/Termination.antt =====
-- The loop of a sweep ends, whatever the hardware and the other threads do.
use nano_vna_x.Base.{
  ℕ, zero, suc, ◌+◌, ◌-◌, ◌*◌, ◌^◌, ◌≤◌, ◌<◌, ◌≡◌, inl, inr, refl, sym, subst, true, false, some,
  leb, ◌==◌, arith, Bool-cases, ◌&&◌,
}
use nano_vna_x.Sweep.Port.{Float}
use nano_vna_x.Sweep.State.{
  RfState, idle, setup_freq, setup_measure, wait_capture, process, next_step, fault, flag,
  ch0_measure, ch1_measure, Settings, Input, Machine, publish_progress, sweep_progress_update,
}
use nano_vna_x.Sweep.{
  is_over, sweep_stops, step_from, fsm_step, fsm_loop, fsm_setup_freq, fsm_setup_measure,
  start_channel, fsm_process, fsm_next_step,
}

-- What is left to do at a point: at most 255 cycles of two channels.
abbrev pub point_rank : RfState → ℕ → ℕ → ℕ
point_rank idle cycles channel = 0
point_rank setup_freq cycles channel = 2100
point_rank setup_measure cycles channel = 8 * cycles + 3 * (2 - channel) + 3
point_rank wait_capture cycles channel = 8 * cycles + 3 * (2 - channel) + 2
point_rank process cycles channel = 8 * cycles + 3 * (2 - channel) + 1
point_rank next_step cycles channel = 1
point_rank fault cycles channel = 0

abbrev pub points_rank : RfState → ℕ → ℕ
points_rank idle n = 0
points_rank setup_freq n = 2200 * n
points_rank setup_measure n = 2200 * n
points_rank wait_capture n = 2200 * n
points_rank process n = 2200 * n
points_rank next_step n = 2200 * n
points_rank fault n = 0

-- A state within a point is at a point of the sweep, a capture is of channel 0 or 1.
abbrev pub InPoint : RfState → ℕ → ℕ → ℕ → Type 0
InPoint idle left total channel = Unit
InPoint setup_freq left total channel = Unit
InPoint setup_measure left total channel = (0 < left) × (total < 256)
InPoint wait_capture left total channel = (0 < left) × (total < 256) × (channel < 2)
InPoint process left total channel = (0 < left) × (total < 256) × (channel < 2)
InPoint next_step left total channel = (0 < left) × (total < 256)
InPoint fault left total channel = Unit

module _ (fp : Float) where
  abbrev pub rank_at : RfState → Settings fp → Machine fp → ℕ
  rank_at s cfg m =
      points_rank s (cfg.points - m.p_sweep)
      + point_rank s (m.total_cycles - m.current_cycle) m.channel_index

  abbrev pub SaneAt : RfState → Settings fp → Machine fp → Type 0
  SaneAt s cfg m = InPoint s (cfg.points - m.p_sweep) m.total_cycles m.channel_index

  -- The state is one the loop can be in, and less is left to do than the bound.
  abbrev pub Below : Settings fp → ℕ → Machine fp → Type 0
  Below cfg bound m = SaneAt m.state cfg m × (rank_at m.state cfg m < bound)

  stops-points :
      (cfg : Settings fp) (i : Input fp) (m : Machine fp)
      → sweep_stops fp cfg i m ≡ false
      → 0 < cfg.points - m.p_sweep
  unfolding sweep_stops
  stops-points cfg i m e = ground arith

  setup_freq-Below :
      (cfg : Settings fp) (i : Input fp) (m : Machine fp)
      → Below cfg (rank_at setup_freq cfg m) (step_from fp setup_freq cfg i m)
  unfolding step_from fsm_setup_freq
  setup_freq-Below cfg i m = elim (Bool-cases (sweep_stops fp cfg i m)) [
    | inl e ↦ rw e (tt, omega arith)
    | inr e ↦ let more = stops-points cfg i m e in rw e ((more, omega arith), omega arith)
  ]

  setup_measure-Below :
      (cfg : Settings fp) (i : Input fp) (m : Machine fp)
      → m.state ≡ setup_measure
      → SaneAt setup_measure cfg m
      → Below cfg (rank_at setup_measure cfg m) (step_from fp setup_measure cfg i m)
  unfolding step_from fsm_setup_measure start_channel
  setup_measure-Below cfg i m at sane = elim (Bool-cases (leb m.total_cycles m.current_cycle)) [
    | inl e ↦ rw e (sane, omega arith)
    | inr e ↦
        let more : m.current_cycle < m.total_cycles = ground arith in
        rw e (elim (Bool-cases (flag m.mask ch0_measure && (m.channel_index == 0))) [
          | inl e0 ↦
              let first : m.channel_index ≡ 0 = ground arith in
              rw e0 ((sane.0, sane.1, omega arith), omega arith)
          | inr e0 ↦ rw e0 (elim (Bool-cases (flag m.mask ch1_measure && leb m.channel_index 1)) [
            | inl e1 ↦
                let low : m.channel_index ≤ 1 = ground arith in
                rw e1 ((sane.0, sane.1, omega arith), omega arith)
            | inr e1 ↦ rw (e1, at) (sane, omega arith)
          ])
        ])
  ]

  process-Below :
      (cfg : Settings fp) (i : Input fp) (m : Machine fp)
      → SaneAt process cfg m
      → Below cfg (rank_at process cfg m) (step_from fp process cfg i m)
  unfolding step_from fsm_process
  process-Below cfg i m sane = ground arith

  next_step-Below :
      (cfg : Settings fp) (i : Input fp) (m : Machine fp)
      → cfg.points < 2 ^ 16
      → SaneAt next_step cfg m
      → Below cfg (rank_at next_step cfg m) (step_from fp next_step cfg i m)
  unfolding step_from fsm_next_step sweep_progress_update publish_progress
  next_step-Below cfg i m small sane = (tt, omega arith)

  pub step-Below :
      (s : RfState) (cfg : Settings fp) (i : Input fp) (m : Machine fp)
      → m.state ≡ s
      → cfg.points < 2 ^ 16
      → is_over s ≡ false
      → SaneAt s cfg m
      → Below cfg (rank_at s cfg m) (step_from fp s cfg i m)
  unfolding step_from is_over
  step-Below idle cfg i m at small runs sane = absurd (ground arith)
  step-Below setup_freq cfg i m at small runs sane = setup_freq-Below cfg i m
  step-Below setup_measure cfg i m at small runs sane = setup_measure-Below cfg i m at sane
  step-Below wait_capture cfg i m at small runs sane = elim (Bool-cases i.captured) [
    | inl e ↦ rw e (sane, omega arith)
    | inr e ↦ rw e (tt, omega arith)
  ]
  step-Below process cfg i m at small runs sane = process-Below cfg i m sane
  step-Below next_step cfg i m at small runs sane = next_step-Below cfg i m small sane
  step-Below fault cfg i m at small runs sane = absurd (ground arith)

  -- With more fuel than the rank, the loop ends.
  pub fsm_loop-ends :
      (fuel : ℕ) (cfg : Settings fp) (inputs : ℕ → Input fp) (turn : ℕ) (m : Machine fp)
      → cfg.points < 2 ^ 16
      → SaneAt m.state cfg m
      → rank_at m.state cfg m < fuel
      → (last : Machine fp) × (fsm_loop fp fuel cfg inputs turn m ≡ some last)
        × (is_over last.state ≡ true)
  unfolding fsm_loop fsm_step
  fsm_loop-ends zero cfg inputs turn m small sane enough = absurd (omega arith)
  fsm_loop-ends (suc fuel) cfg inputs turn m small sane enough =
      elim (Bool-cases (is_over m.state)) [
        | inl e ↦ rw e (m, refl, e)
        | inr e ↦
            let (sane', less) = step-Below m.state cfg (inputs turn) m refl small e sane in
            let m' = step_from fp m.state cfg (inputs turn) m in
            rw e (
              fsm_loop-ends fuel cfg inputs (turn + 1) m' small sane' (omega (arith, less, enough)))
      ]

  pub setup_freq-rank :
      (cfg : Settings fp) (m : Machine fp)
      → m.state ≡ setup_freq
      → SaneAt m.state cfg m × (rank_at m.state cfg m < 2200 * (cfg.points + 1))
  setup_freq-rank cfg m at =
      subst (λ s. SaneAt s cfg m × (rank_at s cfg m < 2200 * (cfg.points + 1))) (sym at)
        (tt, omega arith)
