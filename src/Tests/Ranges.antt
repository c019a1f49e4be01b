-- ===== src/Tests/Ranges.antt =====
-- src/runtime/runtime_entry.c at small ranges.
use nano_vna_x.Base.{true, arith}
use nano_vna_x.Range.{Range, step, set_sweep_frequency}
use nano_vna_x.Range.Bounds.{IsInRange, set_sweep_frequency-IsInRange}

abbrev wide_range : Range
wide_range = record {
  frequency0 = 50000;
  frequency1 = 900000000;
  sweep_points = 101;
  center_span = true;
  var_freq = 0;
}

abbrev in_range : IsInRange wide_range
in_range = record { low = omega arith; ordered = omega arith; high = omega arith }

set_sweep_frequency-IsInRange_example : IsInRange (set_sweep_frequency step 10000 wide_range)
set_sweep_frequency-IsInRange_example =
    set_sweep_frequency-IsInRange step 10000 wide_range in_range (omega arith)
