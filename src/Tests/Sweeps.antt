-- ===== src/Tests/Sweeps.antt =====
-- src/rf/sweep.c with numbers for floats, over two points.
use nano_vna_x.Base.{
  ℕ, ◌+◌, ◌-◌, ◌*◌, ◌/◌, ◌<◌, ◌≡◌, refl, Bool, true, false, none, some, List, [], ◌∷◌, map, ◌==◌,
  pos, arith,
}
use mathlib.Core.Option
use nano_vna_x.Sweep.Port.{Float}
use nano_vna_x.Sweep.State.{
  Settings, Input, Machine, idle, flag, sweep_led_begin, sweep_led_end, sweep_progress_begin,
  sweep_progress_update, sweep_progress_end, publish_progress, sweep_prepare_led_and_progress,
}
use nano_vna_x.Sweep.{
  sweep, step_from, fsm_step, fsm_loop, fsm_setup_freq, fsm_setup_measure, start_channel,
  fsm_process, fsm_next_step, exit_loop, enter, restart, prepare, sweep_stops, is_over, is_fault,
  sweep_points_budget, sweep_timeslice_expired,
}
use nano_vna_x.Sweep.Snapshots.{Service}
use nano_vna_x.Sweep.Call.{app_measurement_sweep}
use nano_vna_x.Sweep.Returns.{IsReturn, sweep-returns}
use nano_vna_x.Sweep.Slices.{IsSlice, sweep-stores}

abbrev integers : Float
integers = record {
  Num = ℕ;
  of_int = λ n. n;
  add = λ a b. a + b;
  sub = λ a b. a - b;
  mul = λ a b. a * b;
  div = λ a b. a / b;
  is_zero = λ n. n == 0;
  sincos = λ w. (0, 1);
}

abbrev two_points : Settings integers
two_points = record {
  points = 2;
  show_progress = true;
  width = 300;
  timeslice = 80;
  max_points = 401;
  channel_change = 1;
  sweep_start = 20;
  get_frequency = λ p. 50000 + 1000 * p;
  edelay_s11 = 0;
  edelay_s21 = 0;
  s21_gain = 1;
  enhanced = false;
  has_bus = true;
}

-- Two settling cycles, a capture that succeeds, and the number of the turn as the sample.
abbrev captured_input : ℕ → Input integers
captured_input turn = record {
  now = 1;
  cancelled = false;
  pll_delay = 5;
  settling = 2;
  captured = true;
  sample = (turn, turn);
  terms = record {
    directivity = (0, 0);
    source_match = (0, 0);
    reflection_tracking = (1, 0);
    transmission_tracking = (1, 0);
    isolation = (0, 0);
  };
}

abbrev fresh : Machine integers
fresh = record {
  p_sweep = 0;
  progress_active = false;
  led_active = false;
  in_progress = false;
  stored = [];
  captures = [];
  published = [];
  state = idle;
  break_on_operation = false;
  mask = 0;
  batch_budget = 0;
  processed = 0;
  slice_start = 0;
  frequency = 0;
  delay = 0;
  st_delay = 0;
  interpolation_idx = pos 0;
  total_cycles = 0;
  current_cycle = 0;
  channel_index = 0;
  offset = 0;
  sweep_data = record { s11 = (0, 0); s21 = (0, 0) };
  cal_data = record {
    directivity = (0, 0);
    source_match = (0, 0);
    reflection_tracking = (0, 0);
    transmission_tracking = (0, 0);
    isolation = (0, 0);
  };
}

bits_of_3 : (flag 3 0 ≡ true) × (flag 3 1 ≡ true)
unfolding flag
bits_of_3 = (refl, refl)

settled : (j : ℕ) → (captured_input j).settling < 255
settled j = omega arith

-- A run of at most 60 turns.
two_point_run :
    Option.map {B = Bool × List (ℕ × ℕ)}
      (λ r. (r.0, map (λ s. (s.channel, s.point)) r.1.stored))
      (sweep integers 60 two_points captured_input false 3 fresh)
    ≡ some (true, (0, 0) ∷ (1, 0) ∷ (0, 1) ∷ (1, 1) ∷ [])
unfolding sweep step_from fsm_step fsm_loop fsm_setup_freq fsm_setup_measure start_channel
    fsm_process fsm_next_step exit_loop enter restart prepare sweep_stops is_over is_fault
    sweep_points_budget sweep_timeslice_expired sweep_led_begin sweep_led_end sweep_progress_begin
    sweep_progress_update sweep_progress_end publish_progress sweep_prepare_led_and_progress flag
two_point_run = refl

-- A reader is there at two looks of the wait and gone at the third.
abbrev read_service : Service
read_service = record {
  sweep_in_progress = true;
  sweep_copy_in_progress = true;
  sweep_generation = 4;
  sweep_cancel_request = false;
}

abbrev free_service : Service
free_service = record read_service { sweep_copy_in_progress = false }

abbrev busy_looks : List Service
busy_looks = read_service ∷ read_service ∷ []

sweep-returns_example :
    (app_measurement_sweep integers
        (2200 * (two_points.points + 1))
        two_points
        captured_input
        busy_looks
        true
        3
        fresh
      ≡ none)
    × ((result : Bool × Machine integers) × (app_measurement_sweep integers
            (2200 * (two_points.points + 1))
            two_points
            captured_input
            (read_service ∷ read_service ∷ free_service ∷ [])
            true
            3
            fresh
          ≡ some result)
        × IsReturn integers two_points result)
sweep-returns_example =
    sweep-returns integers two_points captured_input true 3 fresh busy_looks free_service []
      (omega arith) (refl, (refl, tt)) refl

sweep-stores_example :
    (result : Bool × Machine integers) × (sweep integers
        (2200 * (two_points.points + 1))
        two_points
        captured_input
        true
        3
        fresh
      ≡ some result)
    × IsSlice integers two_points [] result
sweep-stores_example =
    sweep-stores integers two_points captured_input true 3 [] fresh (omega arith) settled
      bits_of_3.0 bits_of_3.1 refl
