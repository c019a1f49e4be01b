-- ===== src/Sweep/State.antt =====
-- src/rf/sweep.c: the state of a sweep over the points, with its progress bar and its LED.
-- What a turn of the loop learns from the hardware and from other threads is its `Input`.
use nano_vna_x.Base.{
  ℕ, ◌/◌, ◌%◌, ◌^◌, Bool, true, false, List, [], ◌∷◌, ◌++◌, ltb, ◌==◌, if◌then◌else◌, ℤ,
}
use nano_vna_x.Sweep.Port.{Float}
use nano_vna_x.Sweep.Corrections.{Data, Terms}

pub data RfState : Type 0 where
  idle setup_freq setup_measure wait_capture process next_step fault : RfState

-- A bit of the sweep mask, and the bits by their names.
unfoldable pub flag : ℕ → ℕ → Bool
flag mask bit = mask / 2 ^ bit % 2 == 1

abbrev pub ch0_measure : ℕ
ch0_measure = 0

abbrev pub ch1_measure : ℕ
ch1_measure = 1

abbrev pub apply_edelay_s11 : ℕ
apply_edelay_s11 = 2

abbrev pub apply_edelay_s21 : ℕ
apply_edelay_s21 = 3

abbrev pub apply_s21_offset : ℕ
apply_s21_offset = 4

abbrev pub apply_calibration : ℕ
apply_calibration = 5

abbrev pub use_interpolation : ℕ
use_interpolation = 6

module _ (fp : Float) where
  open fp use {Num, of_int, mul}

  -- The settings that a sweep reads and does not change. `channel_change` and `sweep_start` are the
  -- delays of these names, and `show_progress` is `config._bandwidth >= BANDWIDTH_100`.
  pub record Settings : Type 0 where
    pub points : ℕ
    pub show_progress : Bool
    pub width : ℕ
    pub timeslice : ℕ
    pub max_points : ℕ
    pub channel_change : ℕ
    pub sweep_start : ℕ
    pub get_frequency : ℕ → ℕ
    pub edelay_s11 : Num
    pub edelay_s21 : Num
    pub s21_gain : Num
    pub enhanced : Bool
    pub has_bus : Bool

  -- The time, a request to cancel, what the generator driver returns for its delay and its settling
  -- cycles, whether the capture ended in time, the sample, and the error terms that
  -- `cal_interpolate` leaves.
  pub record Input : Type 0 where
    pub now : ℕ
    pub cancelled : Bool
    pub pll_delay : ℕ
    pub settling : ℕ
    pub captured : Bool
    pub sample : Num × Num
    pub terms : Terms fp

  -- measured[channel][point] = value
  pub record Store : Type 0 where
    pub channel : ℕ
    pub point : ℕ
    pub value : Num × Num

  -- The static variables, then the context of the call. `stored` are the writes to `measured`,
  -- `captures` the channels selected with the delay before their capture, and `published` the
  -- progress that is published.
  pub record Machine : Type 0 where
    pub p_sweep : ℕ
    pub progress_active : Bool
    pub led_active : Bool
    pub in_progress : Bool
    pub stored : List Store
    pub captures : List (ℕ × ℕ)
    pub published : List ℕ
    pub state : RfState
    pub break_on_operation : Bool
    pub mask : ℕ
    pub batch_budget : ℕ
    pub processed : ℕ
    pub slice_start : ℕ
    pub frequency : ℕ
    pub delay : ℕ
    pub st_delay : ℕ
    pub interpolation_idx : ℤ
    pub total_cycles : ℕ
    pub current_cycle : ℕ
    pub channel_index : ℕ
    pub offset : Num
    pub sweep_data : Data fp
    pub cal_data : Terms fp

  -- The progress goes to the event bus, where there is one.
  unfoldable pub publish_progress : Settings → ℕ → Machine → Machine
  publish_progress cfg pixels m =
      if cfg.has_bus then record m { published = m.published ++ pixels ∷ [] } else m

  unfoldable pub sweep_progress_begin : Settings → Bool → Machine → Machine
  sweep_progress_begin cfg enabled m =
      if enabled
      then publish_progress cfg 0 (record m { progress_active = true })
      else record m { progress_active = false }

  unfoldable pub sweep_progress_update : Settings → ℕ → Machine → Machine
  sweep_progress_update cfg pixels m =
      if m.progress_active
      then publish_progress cfg (if ltb cfg.width pixels then cfg.width else pixels) m
      else m

  unfoldable pub sweep_progress_end : Settings → Machine → Machine
  sweep_progress_end cfg m =
      if m.progress_active
      then record (publish_progress cfg cfg.width m) { progress_active = false }
      else m

  unfoldable pub sweep_led_begin : Machine → Machine
  sweep_led_begin m = record m { led_active = true }

  unfoldable pub sweep_led_end : Machine → Machine
  sweep_led_end m = record m { led_active = false }

  unfoldable pub sweep_prepare_led_and_progress : Settings → Bool → Machine → Machine
  sweep_prepare_led_and_progress cfg show m = sweep_progress_begin cfg show (sweep_led_begin m)
