-- ===== src/Sweep.antt =====
-- src/rf/sweep.c: the handlers of the state machine of a sweep, its loop, and a call of the sweep.
pub mod Port
pub mod Corrections
pub mod State
pub mod Frequencies
pub mod Capture
pub mod Snapshots
pub mod Termination
pub mod Call
pub mod Returns
pub mod Stages
pub mod Stores
pub mod Loop
pub mod Slices
use nano_vna_x.Base.{
  ℕ, zero, suc, ◌+◌, ◌-◌, ◌*◌, ◌/◌, ◌%◌, ◌^◌, Bool, true, false, Option, none, some, List, [], ◌∷◌,
  ◌++◌, ltb, leb, ◌==◌, not, ◌&&◌, ◌||◌, if◌then◌else◌, ℤ, pos, negsuc, sub32,
}
use Port.{Float}
use Corrections.{
  Data, Terms, apply_ch0_error_term, apply_ch1_error_term, apply_edelay, apply_offset,
}
use State.{
  RfState, idle, setup_freq, setup_measure, wait_capture, process, next_step, fault, flag,
  ch0_measure, ch1_measure, apply_edelay_s11, apply_edelay_s21, apply_s21_offset, apply_calibration,
  use_interpolation, Settings, Input, Store, Machine, sweep_progress_begin, sweep_progress_update,
  sweep_progress_end, sweep_led_begin, sweep_led_end, sweep_prepare_led_and_progress,
}

-- The states that the loop ends in.
unfoldable pub is_fault : RfState → Bool
is_fault idle = false
is_fault setup_freq = false
is_fault setup_measure = false
is_fault wait_capture = false
is_fault process = false
is_fault next_step = false
is_fault fault = true

unfoldable pub is_over : RfState → Bool
is_over idle = true
is_over setup_freq = false
is_over setup_measure = false
is_over wait_capture = false
is_over process = false
is_over next_step = false
is_over fault = true

module _ (fp : Float) where
  open fp use {Num, of_int, mul}

  unfoldable pub sweep_timeslice_expired : Settings fp → ℕ → ℕ → Bool
  sweep_timeslice_expired cfg slice_start now =
      if (cfg.timeslice == 0) || (slice_start == 0)
      then false
      else leb cfg.timeslice (sub32 now slice_start)

  unfoldable pub sweep_points_budget : Settings fp → Bool → Bool → ℕ
  sweep_points_budget cfg break_on_operation pending =
      if not break_on_operation then 65535 else if pending then 1 else cfg.max_points

  unfoldable pub set_frequency : Settings fp → ℕ → ℕ
  set_frequency cfg pll_delay = if pll_delay == 0 then cfg.channel_change else pll_delay

  unfoldable pub fsm_setup_freq : Settings fp → Input fp → Machine fp → Machine fp
  fsm_setup_freq cfg i m =
      let measuring = flag m.mask ch0_measure || flag m.mask ch1_measure in
      let extra_cycles = if measuring then i.settling % 256 else 0 in
      record m {
        frequency = cfg.get_frequency m.p_sweep;
        delay = if measuring then set_frequency cfg i.pll_delay else m.delay;
        interpolation_idx =
            if measuring
            then if flag m.mask use_interpolation then negsuc 0 else pos m.p_sweep
            else m.interpolation_idx;
        total_cycles = (extra_cycles + 1) % 256;
        current_cycle = 0;
        st_delay = cfg.sweep_start;
        state = setup_measure;
      }

  -- The capture of a channel, once it is chosen.
  unfoldable pub start_channel : Settings fp → Input fp → ℕ → Machine fp → Machine fp
  start_channel cfg i channel m =
      let cycle_delay =
        if (channel == 1) && flag m.mask ch0_measure then cfg.channel_change else m.delay in
      let cycle_st_delay = if m.current_cycle == 0 then m.st_delay else 0 in
      let final_cycle = m.current_cycle + 1 == m.total_cycles in
      record m {
        channel_index = channel;
        captures = m.captures ++ (channel, cycle_delay + cycle_st_delay) ∷ [];
        cal_data = if final_cycle && flag m.mask apply_calibration then i.terms else m.cal_data;
        state = wait_capture;
      }

  unfoldable pub fsm_setup_measure : Settings fp → Input fp → Machine fp → Machine fp
  fsm_setup_measure cfg i m =
      if leb m.total_cycles m.current_cycle
      then record m { state = next_step }
      else if flag m.mask ch0_measure && (m.channel_index == 0)
      then start_channel cfg i 0 m
      else if flag m.mask ch1_measure && leb m.channel_index 1
      then start_channel cfg i 1 m
      else record m { current_cycle = m.current_cycle + 1; channel_index = 0 }

  -- The sample is put in its place.
  unfoldable pub sampled : ℕ → Num × Num → Data fp → Data fp
  sampled channel value d =
      if channel == 0 then record d { s11 = value } else record d { s21 = value }

  unfoldable pub calibrated : Settings fp → Machine fp → Data fp → Data fp
  calibrated cfg m d =
      if not (flag m.mask apply_calibration)
      then d
      else if m.channel_index == 0
      then apply_ch0_error_term fp d m.cal_data
      else apply_ch1_error_term fp cfg.enhanced d m.cal_data

  -- The electrical delay, and the offset of S21.
  unfoldable pub shifted : Settings fp → Machine fp → Data fp → Data fp
  shifted cfg m d =
      let turned_s11 = apply_edelay fp (mul cfg.edelay_s11 (of_int m.frequency)) d.s11 in
      let turned_s21 =
        if flag m.mask apply_edelay_s21
        then apply_edelay fp (mul cfg.edelay_s21 (of_int m.frequency)) d.s21
        else d.s21 in
      if m.channel_index == 0
      then if flag m.mask apply_edelay_s11 then record d { s11 = turned_s11 } else d
      else record d {
        s21 =
            if flag m.mask apply_s21_offset
            then apply_offset fp turned_s21 m.offset
            else turned_s21;
      }

  unfoldable pub fsm_process : Settings fp → Input fp → Machine fp → Machine fp
  fsm_process cfg i m =
      let final_cycle = m.current_cycle + 1 == m.total_cycles in
      let raw = sampled m.channel_index i.sample m.sweep_data in
      let done = shifted cfg m (calibrated cfg m raw) in
      let value = if m.channel_index == 0 then done.s11 else done.s21 in
      let store : Store fp = record {
        channel = m.channel_index;
        point = m.p_sweep;
        value = value;
      } in
      record m {
        sweep_data = if final_cycle then done else raw;
        stored = if final_cycle then m.stored ++ store ∷ [] else m.stored;
        channel_index = (m.channel_index + 1) % 256;
        state = setup_measure;
      }

  unfoldable pub fsm_next_step : Settings fp → Machine fp → Machine fp
  fsm_next_step cfg m =
      let shown =
        if cfg.show_progress && ltb 1 cfg.points
        then sweep_progress_update fp cfg (m.p_sweep * cfg.width / (cfg.points - 1) % 65536) m
        else m in
      record shown {
        p_sweep = (m.p_sweep + 1) % 65536;
        processed = (m.processed + 1) % 65536;
        state = setup_freq;
      }

  -- What ends a call between two points.
  unfoldable pub sweep_stops : Settings fp → Input fp → Machine fp → Bool
  sweep_stops cfg i m =
      leb m.batch_budget m.processed
      || (m.break_on_operation && i.cancelled)
      || sweep_timeslice_expired cfg m.slice_start i.now
      || leb cfg.points m.p_sweep

  -- One turn of the loop: the switch, at the state of the machine.
  unfoldable pub step_from : RfState → Settings fp → Input fp → Machine fp → Machine fp
  step_from idle cfg i m = m
  step_from setup_freq cfg i m =
      if sweep_stops cfg i m then record m { state = idle } else fsm_setup_freq cfg i m
  step_from setup_measure cfg i m = fsm_setup_measure cfg i m
  step_from wait_capture cfg i m = record m { state = if i.captured then process else fault }
  step_from process cfg i m = fsm_process cfg i m
  step_from next_step cfg i m = fsm_next_step cfg m
  step_from fault cfg i m = m

  unfoldable pub fsm_step : Settings fp → Input fp → Machine fp → Machine fp
  fsm_step cfg i m = step_from m.state cfg i m

  -- The loop runs until the state is IDLE or FAULT; `none` is a loop that has not ended on its fuel.
  unfoldable pub fsm_loop : ℕ → Settings fp → (ℕ → Input fp) → ℕ → Machine fp → Option (Machine fp)
  fsm_loop zero cfg inputs turn m = none
  fsm_loop (suc fuel) cfg inputs turn m =
      let later = fsm_loop fuel cfg inputs (turn + 1) (fsm_step cfg (inputs turn) m) in
      if is_over m.state then some m else later

  unfoldable pub exit_failure : Settings fp → Machine fp → Bool × Machine fp
  exit_failure cfg m = (
    false,
    record (sweep_led_end fp (sweep_progress_end fp cfg (record m { p_sweep = 0 }))) {
      in_progress = false;
    },
  )

  -- Behind the loop.
  unfoldable pub exit_loop : Settings fp → Machine fp → Bool × Machine fp
  exit_loop cfg m =
      let completed = leb cfg.points m.p_sweep in
      let ended = if completed then sweep_led_end fp (sweep_progress_end fp cfg m) else m in
      if is_fault m.state
      then exit_failure cfg m
      else (completed, record ended { in_progress = false })

  -- The context of a call, made on the static variables of `m`, before its wait for a reader.
  unfoldable pub enter : Settings fp → Bool → ℕ → Input fp → Machine fp → Machine fp
  enter cfg break_on_operation mask i m = record m {
    state = setup_freq;
    break_on_operation = break_on_operation;
    mask = mask;
    batch_budget = sweep_points_budget cfg break_on_operation i.cancelled;
    processed = 0;
    slice_start = if break_on_operation then i.now else 0;
    offset = if flag mask apply_s21_offset then cfg.s21_gain else of_int 1;
    channel_index = 0;
    in_progress = true;
  }

  unfoldable pub restart : Settings fp → Machine fp → Machine fp
  restart cfg m =
      if leb cfg.points m.p_sweep || not m.break_on_operation
      then sweep_led_end fp (sweep_progress_end fp cfg (record m { p_sweep = 0 }))
      else m

  unfoldable pub prepare : Settings fp → Machine fp → Machine fp
  prepare cfg m =
      if m.p_sweep == 0 then sweep_prepare_led_and_progress fp cfg cfg.show_progress m else m

  -- What a call does behind its wait for a reader: whether the sweep is complete, and the static
  -- variables then.
  abbrev pub behind_wait :
      ℕ → Settings fp → (ℕ → Input fp) → Bool → ℕ → Machine fp → Option (Bool × Machine fp)
  behind_wait fuel cfg inputs break_on_operation mask entered =
      let start = restart cfg entered in
      if break_on_operation && (mask == 0)
      then some (exit_failure cfg start)
      else elim (fsm_loop fuel cfg inputs 1 (prepare cfg start)) [
        | none ↦ none
        | some last ↦ some (exit_loop cfg last)
      ]

  -- A call that nobody keeps waiting. Turn 0 is the entry.
  unfoldable pub sweep :
      ℕ → Settings fp → (ℕ → Input fp) → Bool → ℕ → Machine fp → Option (Bool × Machine fp)
  sweep fuel cfg inputs break_on_operation mask m =
      behind_wait fuel cfg inputs break_on_operation mask
        (enter cfg break_on_operation mask (inputs 0) m)
