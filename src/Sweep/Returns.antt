-- ===== src/Sweep/Returns.antt =====
-- What a call of the sweep returns.
use nano_vna_x.Base.{
  ℕ, ◌+◌, ◌*◌, ◌^◌, ◌≤◌, ◌<◌, ◌≡◌, inl, inr, refl, Bool, true, false, none, some, List, [], ◌∷◌,
  ◌++◌, Every, ◌==◌, arith, Bool-cases, ◌&&◌,
}
use nano_vna_x.Sweep.Port.{Float}
use nano_vna_x.Sweep.State.{
  setup_freq, Settings, Input, Machine, publish_progress, sweep_progress_end, sweep_progress_begin,
  sweep_led_begin, sweep_led_end, sweep_prepare_led_and_progress,
}
use nano_vna_x.Sweep.Snapshots.{Service, copy_released, sweep_service_wait_for_copy_release}
use nano_vna_x.Sweep.Call.{app_measurement_sweep}
use nano_vna_x.Sweep.{is_fault, exit_failure, exit_loop, enter, restart, prepare, sweep}
use nano_vna_x.Sweep.Termination.{fsm_loop-ends, setup_freq-rank}

module _ (fp : Float) where
  pub enter-state :
      (cfg : Settings fp) (brk : Bool) (mask : ℕ) (i : Input fp) (m : Machine fp)
      → (prepare fp cfg (restart fp cfg (enter fp cfg brk mask i m))).state ≡ setup_freq
  unfolding prepare restart enter sweep_led_end sweep_progress_end publish_progress
      sweep_prepare_led_and_progress sweep_progress_begin sweep_led_begin
  enter-state cfg brk mask i m = ground arith

  -- The lights are out.
  abbrev pub IsDark : Machine fp → Type 0
  IsDark m = (m.led_active ≡ false) × (m.progress_active ≡ false)

  abbrev pub IsReturn : Settings fp → Bool × Machine fp → Type 0
  IsReturn cfg (completed, last) =
      (last.in_progress ≡ false) × (completed ≡ true → (cfg.points ≤ last.p_sweep) × IsDark last)

  exit_failure-IsReturn :
      (cfg : Settings fp) (m : Machine fp) → IsReturn cfg (exit_failure fp cfg m)
  unfolding exit_failure
  exit_failure-IsReturn cfg m = (refl, λ e. absurd (ground arith))

  sweep_progress_end-dark :
      (cfg : Settings fp) (m : Machine fp) → (sweep_progress_end fp cfg m).progress_active ≡ false
  unfolding sweep_progress_end
  sweep_progress_end-dark cfg m = elim (Bool-cases m.progress_active) [
    | inl e ↦ rw e refl
    | inr e ↦ rw e refl
  ]

  sweep_progress_end-place :
      (cfg : Settings fp) (m : Machine fp) → (sweep_progress_end fp cfg m).p_sweep ≡ m.p_sweep
  unfolding sweep_progress_end publish_progress
  sweep_progress_end-place cfg m = ground arith

  exit_loop-IsReturn : (cfg : Settings fp) (m : Machine fp) → IsReturn cfg (exit_loop fp cfg m)
  unfolding exit_loop sweep_led_end
  exit_loop-IsReturn cfg m = elim (Bool-cases (is_fault m.state)) [
    | inl e ↦ rw e (exit_failure-IsReturn cfg m)
    | inr e ↦ rw e (
      refl,
      λ done.
          let reached : cfg.points ≤ m.p_sweep = ground arith in
          rw done (
            omega (arith, sweep_progress_end-place cfg m, reached),
            (refl, sweep_progress_end-dark cfg m),
          ),
    )
  ]

  sweep-ends :
      (cfg : Settings fp) (inputs : ℕ → Input fp) (brk : Bool) (mask : ℕ) (m : Machine fp)
      → cfg.points < 2 ^ 16
      → (result : Bool × Machine fp) × (sweep fp (2200 * (cfg.points + 1)) cfg inputs brk mask m
          ≡ some result)
        × IsReturn cfg result
  unfolding sweep
  sweep-ends cfg inputs brk mask m small = elim (Bool-cases (brk && (mask == 0))) [
    | inl e ↦
        let start = restart fp cfg (enter fp cfg brk mask (inputs 0) m) in
        rw e (exit_failure fp cfg start, refl, exit_failure-IsReturn cfg start)
    | inr e ↦
        let start = prepare fp cfg (restart fp cfg (enter fp cfg brk mask (inputs 0) m)) in
        let at : start.state ≡ setup_freq = enter-state cfg brk mask (inputs 0) m in
        let (sane, enough) = setup_freq-rank fp cfg start at in
        let (last, ends, _) =
          fsm_loop-ends fp (2200 * (cfg.points + 1)) cfg inputs 1 start small sane enough in
        rw (e, ends) (exit_loop fp cfg last, refl, exit_loop-IsReturn cfg last)
  ]

  -- The wait for a reader goes on as long as the reader holds the data, and ends at the first look
  -- that finds it gone.
  wait-held :
      (busy : List Service)
      → Every (λ s. s.sweep_copy_in_progress ≡ true) busy
      → sweep_service_wait_for_copy_release busy ≡ false
  unfolding sweep_service_wait_for_copy_release copy_released
  wait-held [] held = refl
  wait-held (s ∷ busy) (first, held) =
      let later = wait-held busy held in ground (arith, first, later)

  wait-ends :
      (busy : List Service) (free : Service) (others : List Service)
      → free.sweep_copy_in_progress ≡ false
      → sweep_service_wait_for_copy_release (busy ++ free ∷ others) ≡ true
  unfolding sweep_service_wait_for_copy_release copy_released
  wait-ends [] free others gone = ground (arith, gone)
  wait-ends (s ∷ busy) free others gone =
      let later = wait-ends busy free others gone in ground (arith, later)

  -- For at most 65535 points, whatever the driver, the captures, the clock and the requests to cancel
  -- are in each turn: while a reader of the last sweep holds the data, a call goes on waiting, with no
  -- limit; if some look of its wait finds the reader gone, the call returns within 2200 turns for a
  -- point and 2200 more. No sweep is in progress then, and if the call says that the sweep is
  -- complete, all points are passed and the LED and the progress bar are off.
  pub sweep-returns :
      (cfg : Settings fp) (inputs : ℕ → Input fp) (brk : Bool) (mask : ℕ) (m : Machine fp)
      (busy : List Service) (free : Service) (others : List Service)
      → cfg.points < 2 ^ 16
      → Every (λ s. s.sweep_copy_in_progress ≡ true) busy
      → free.sweep_copy_in_progress ≡ false
      → (app_measurement_sweep fp (2200 * (cfg.points + 1)) cfg inputs busy brk mask m ≡ none)
        × ((result : Bool × Machine fp) × (app_measurement_sweep fp
                (2200 * (cfg.points + 1))
                cfg
                inputs
                (busy ++ free ∷ others)
                brk
                mask
                m
              ≡ some result)
            × IsReturn cfg result)
  unfolding app_measurement_sweep sweep
  sweep-returns cfg inputs brk mask m busy free others small held gone =
      let (result, ends, done) = sweep-ends cfg inputs brk mask m small in
      (rw (wait-held busy held) refl, (result, rw (wait-ends busy free others gone) ends, done))
