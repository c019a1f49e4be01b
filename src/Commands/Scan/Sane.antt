-- ===== src/Commands/Scan/Sane.antt =====
-- The sweep that cmd_scan starts.
use nano_vna_x.Base.{
  ℕ, ◌%◌, ◌^◌, ◌≤◌, ◌<◌, ◌≡◌, Bool, true, false, ◌||◌, List, [], ◌∷◌, ltb, ◌==◌, if◌then◌else◌,
  arith, Bool-cases, inl, inr,
}
use nano_vna_x.Commands.Scan.{
  Setup, Plan, Scan, scan_usage, start_out_of_range, stop_out_of_range, range_invalid,
  points_out_of_range, planned, plan_scan, mask_of, scan_points, scan_rest, is_bad_range,
  scan_range, cmd_scan,
}
use nano_vna_x.Range.{Range, frequency_max}
use nano_vna_x.Text.Number.{my_atoui}

-- A sweep that the analyzer can do.
pub record IsSane (points_max : ℕ) (p : Plan) : Type 0 where
  pub above : 50000 ≤ p.low
  pub ordered : p.low ≤ p.high
  pub below : p.high ≤ frequency_max
  pub some_points : 0 < p.points
  pub few_points : p.points ≤ points_max

abbrev pub Sane : ℕ → Scan → Type 0
Sane points_max (planned p) = IsSane points_max p
Sane points_max scan_usage = Unit
Sane points_max start_out_of_range = Unit
Sane points_max stop_out_of_range = Unit
Sane points_max range_invalid = Unit
Sane points_max points_out_of_range = Unit

scan_points-Sane :
    (setup : Setup) (r : Range) (points_max low high : ℕ) (given : Bool) (mask value : ℕ)
    → is_bad_range low high ≡ false
    → Sane points_max (scan_points setup r points_max low high given mask value)
unfolding scan_points plan_scan
scan_points-Sane setup r points_max low high given mask value good =
    elim (Bool-cases (value % 2 ^ 16 == 0 || ltb points_max (value % 2 ^ 16))) [
      | inl bad ↦ rw bad _
      | inr fine ↦ rw fine (record {
        above = ground arith;
        ordered = ground arith;
        below = ground arith;
        some_points = ground arith;
        few_points = ground arith;
      })
    ]

scan_rest-Sane :
    (setup : Setup) (r : Range) (points_max low high : ℕ) (rest : List (List ℕ))
    → 0 < r.sweep_points
    → r.sweep_points ≤ points_max
    → is_bad_range low high ≡ false
    → Sane points_max (scan_rest setup r points_max low high rest)
unfolding scan_rest plan_scan
scan_rest-Sane setup r points_max low high [] some_points few_points good = record {
  above = ground arith;
  ordered = ground arith;
  below = ground arith;
  some_points = some_points;
  few_points = few_points;
}
scan_rest-Sane setup r points_max low high (c ∷ []) some_points few_points good =
    scan_points-Sane setup r points_max low high false 0 (my_atoui c) good
scan_rest-Sane setup r points_max low high (c ∷ d ∷ []) some_points few_points good =
    scan_points-Sane setup r points_max low high true (mask_of setup (my_atoui d)) (my_atoui c) good
scan_rest-Sane setup r points_max low high (c ∷ d ∷ e ∷ rest) some_points few_points good = _

scan_range-Sane :
    (setup : Setup) (r : Range) (points_max low high : ℕ) (rest : List (List ℕ))
    → 0 < r.sweep_points
    → r.sweep_points ≤ points_max
    → Sane points_max (scan_range setup r points_max low high rest)
unfolding scan_range
scan_range-Sane setup r points_max low high rest some_points few_points =
    elim (Bool-cases (is_bad_range low high)) [
      | inl bad ↦ rw bad (
          refused (ltb low 50000 || ltb frequency_max low)
            (ltb high 50000 || ltb frequency_max high))
      | inr good ↦
          rw good (scan_rest-Sane setup r points_max low high rest some_points few_points good)
    ]
  where
    refused :
        (b c : Bool)
        → Sane points_max
            (if b then start_out_of_range else if c then stop_out_of_range else range_invalid)
    refused true c = _
    refused false true = _
    refused false false = _

-- Whatever the arguments are, the sweep that is started goes from 50 kHz or more up to the limit or
-- less, in order, and has at least one point and at most as many as the build has, if the number of
-- points of the device is so.
pub cmd_scan-Sane :
    (setup : Setup) (points_max : ℕ) (args : List (List ℕ)) (r : Range)
    → 0 < r.sweep_points
    → r.sweep_points ≤ points_max
    → Sane points_max (cmd_scan setup points_max args r)
unfolding cmd_scan
cmd_scan-Sane setup points_max [] r some_points few_points = _
cmd_scan-Sane setup points_max (a ∷ []) r some_points few_points = _
cmd_scan-Sane setup points_max (a ∷ b ∷ []) r some_points few_points =
    scan_range-Sane setup r points_max (my_atoui a) (my_atoui b) [] some_points few_points
cmd_scan-Sane setup points_max (a ∷ b ∷ c ∷ []) r some_points few_points =
    scan_range-Sane setup r points_max (my_atoui a) (my_atoui b) (c ∷ []) some_points few_points
cmd_scan-Sane setup points_max (a ∷ b ∷ c ∷ d ∷ []) r some_points few_points =
    scan_range-Sane setup r points_max (my_atoui a) (my_atoui b) (c ∷ d ∷ []) some_points few_points
cmd_scan-Sane setup points_max (a ∷ b ∷ c ∷ d ∷ e ∷ rest) r some_points few_points = _
