-- ===== src/Sweep/Frequencies/Table.antt =====
-- src/rf/sweep.c: the frequencies of the points, for the build that keeps a table of them.
use nano_vna_x.Base.{
  ℕ, zero, suc, ◌+◌, ◌-◌, ◌/◌, ◌%◌, List, [], ◌∷◌, ◌++◌, leb, if◌then◌else◌, get_or, replicate, u32,
  sub32,
}

-- The first loop, of which `rounds` are left: the frequencies from `f` on.
unfoldable pub table_loop : ℕ → ℕ → ℕ → ℕ → ℕ → ℕ → List ℕ
table_loop zero step delta error f df = []
table_loop (suc rounds) step delta error f df =
    let df' = df + error in
    f
    ∷ table_loop rounds step delta error
        (if leb step df' then u32 (f + 1 + delta) else u32 (f + delta))
        (if leb step df' then df' - step else df')

-- The table of `points_max` entries; those behind the last point are 0.
unfoldable pub app_measurement_set_frequencies : ℕ → ℕ → ℕ → ℕ → List ℕ
unfolding table_loop
app_measurement_set_frequencies points_max start stop points =
    let step = sub32 points 1 in
    let span = sub32 stop start in
    table_loop (step + 1) step (span / step) (span % step) start (step / 2)
    ++ replicate (points_max - (step + 1)) 0

-- `idx` is inside the table.
unfoldable pub get_frequency : List ℕ → ℕ → ℕ
get_frequency frequencies idx = get_or frequencies idx 0

unfoldable pub get_frequency_step : ℕ → List ℕ → ℕ
get_frequency_step sweep_points frequencies =
    if leb sweep_points 1 then 0 else sub32 (get_or frequencies 1 0) (get_or frequencies 0 0)
