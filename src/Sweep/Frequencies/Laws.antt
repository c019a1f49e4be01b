-- ===== src/Sweep/Frequencies/Laws.antt =====
-- The table against the formula, and the ends of the range.
use nano_vna_x.Base.{
  ℕ, zero, suc, ◌+◌, ◌-◌, ◌*◌, ◌/◌, ◌%◌, ◌^◌, ◌≤◌, ◌<◌, ◌≡◌, refl, ap, sym, ◌∙◌, List, [], ◌∷◌,
  ◌++◌, leb, if◌then◌else◌, get_or, replicate, u32, sub32, arith, Bool-cases, inl, inr, length,
}
use nano_vna_x.Sweep.Frequencies.{app_measurement_set_frequencies, get_frequency}
use nano_vna_x.Sweep.Frequencies.Table.{table_loop}
use nano_vna_x.Sweep.Frequencies.Table as Table

div_of : (a q r d : ℕ) → a ≡ q * d + r → r < d → a / d ≡ q
div_of a q r d e lt = grind arith

mul-add_one : (a b : ℕ) → a * (b + 1) ≡ a * b + a
mul-add_one a b = grind arith

add_one-mul : (a b : ℕ) → (a + 1) * b ≡ a * b + b
add_one-mul a b = grind arith

mul_le : (a b c d : ℕ) → a ≤ c → b ≤ d → a * b ≤ c * d
mul_le a b c d h k = grind arith

mod_lt : (a b : ℕ) → 0 < b → a % b < b
mod_lt a b h = grind arith

div_mod : (a b : ℕ) → a / b * b + a % b ≡ a
div_mod a b = grind arith

-- The ideal frequency of a point, before it wraps.
abbrev ideal : ℕ → ℕ → ℕ → ℕ → ℕ → ℕ
ideal step delta error start i = start + delta * i + (step / 2 + error * i) / step

-- The table from point `j` on, where `q` and `df` are the quotient and the rest of the error.
table_loop_from :
    (rounds step delta error start f df q j k : ℕ)
    → df < step
    → error < step
    → q * step + df ≡ step / 2 + error * j
    → f ≡ u32 (start + delta * j + q)
    → k < rounds
    → get_or (table_loop rounds step delta error f df) k 0
      ≡ u32 (ideal step delta error start (j + k))
unfolding table_loop
table_loop_from zero step delta error start f df q j k small less inv at in_table =
    absurd (omega arith)
table_loop_from (suc rounds) step delta error start f df q j zero small less inv at in_table =
    at
    ∙ ap (λ t. u32 (start + delta * j + t))
        (sym (div_of (step / 2 + error * j) q df step (sym inv) small))
    ∙ ap (λ t. u32 (ideal step delta error start t)) (omega arith)
table_loop_from (suc rounds) step delta error start f df q j (suc k) small less inv at in_table =
    elim (Bool-cases (leb step (df + error))) [
      | inl carry ↦ rw carry (
          table_loop_from rounds step delta error start (u32 (f + 1 + delta)) (df + error - step)
            (q + 1) (j + 1) k (omega arith) less
            (let over : step ≤ df + error = ground arith in
              omega (arith, inv, over, mul-add_one error j, add_one-mul q step))
            (omega (arith, at, mul-add_one delta j)) (omega arith)
          ∙ ap (λ t. u32 (ideal step delta error start t)) (omega arith))
      | inr fits ↦
          let under : df + error < step = ground arith in
          rw fits (
            table_loop_from rounds step delta error start (u32 (f + delta)) (df + error) q (j + 1) k
              under less (omega (arith, inv, mul-add_one error j))
              (omega (arith, at, mul-add_one delta j)) (omega arith)
            ∙ ap (λ t. u32 (ideal step delta error start t)) (omega arith))
    ]

length-table_loop :
    (rounds step delta error f df : ℕ) → length (table_loop rounds step delta error f df) ≡ rounds
unfolding table_loop
length-table_loop zero step delta error f df = refl
length-table_loop (suc rounds) step delta error f df = omega (
  arith,
  length-table_loop rounds step delta error
      (if leb step (df + error) then u32 (f + 1 + delta) else u32 (f + delta))
      (if leb step (df + error) then df + error - step else df + error),
)

get_or-append : (xs ys : List ℕ) (i d : ℕ) → i < length xs → get_or (xs ++ ys) i d ≡ get_or xs i d
get_or-append [] ys i d h = absurd (omega arith)
get_or-append (x ∷ xs) ys zero d h = refl
get_or-append (x ∷ xs) ys (suc i) d h = get_or-append xs ys i d (omega arith)

formula-ideal :
    (step delta error start idx : ℕ)
    → error < step
    → step < 65535
    → idx ≤ step
    → u32 (u32 (start + u32 (delta * idx)) + u32 (step / 2 + u32 (error * idx)) / step)
      ≡ u32 (ideal step delta error start idx)
formula-ideal step delta error start idx less few in_range =
    let bound = mul_le error idx 65534 65534 (omega arith) (omega arith) in
    let inner : u32 (error * idx) ≡ error * idx = omega (arith, bound) in
    let outer : u32 (step / 2 + error * idx) ≡ step / 2 + error * idx = omega (arith, bound) in
    ap (λ t. u32 (u32 (start + u32 (delta * idx)) + u32 (step / 2 + t) / step)) inner
    ∙ ap (λ t. u32 (u32 (start + u32 (delta * idx)) + t / step)) outer
    ∙ wraps (delta * idx) ((step / 2 + error * idx) / step)
  where
    wraps : (d q : ℕ) → u32 (u32 (start + u32 d) + q) ≡ u32 (start + d + q)
    wraps d q = omega arith

points_step : (points : ℕ) → 2 ≤ points → points < 65536 → sub32 points 1 ≡ points - 1
points_step points some_step few = omega arith

points_word : (points : ℕ) → 2 ≤ points → points < 65536 → sub32 points 1 % 2 ^ 16 ≡ points - 1
points_word points some_step few = omega arith

-- For 2 to 65535 points the formula wraps only where its result does.
get_frequency-ideal :
    (start stop points idx : ℕ)
    → 2 ≤ points
    → points < 65536
    → idx < points
    → get_frequency (app_measurement_set_frequencies start stop points) idx
      ≡ u32 (
          ideal
            (points - 1)
            (sub32 stop start / (points - 1))
            (sub32 stop start % (points - 1))
            start
            idx)
unfolding get_frequency app_measurement_set_frequencies
get_frequency-ideal start stop points idx some_step few in_range =
    let p = points_word points some_step few in
    let span = sub32 stop start in
    ap
      (λ step.
        u32
          (u32 (start + u32 (span / step * idx)) + u32 (step / 2 + u32 (span % step * idx)) / step))
      p
    ∙ formula-ideal (points - 1) (span / (points - 1)) (span % (points - 1)) start idx
        (mod_lt span (points - 1) (omega arith)) (omega arith) (omega arith)

-- For 2 to 65535 points and a 32-bit start, both builds give each point the same frequency.
pub table-get_frequency :
    (points_max start stop points idx : ℕ)
    → 2 ≤ points
    → points < 65536
    → idx < points
    → start < 2 ^ 32
    → Table.get_frequency (Table.app_measurement_set_frequencies points_max start stop points) idx
      ≡ get_frequency (app_measurement_set_frequencies start stop points) idx
unfolding Table.get_frequency Table.app_measurement_set_frequencies
table-get_frequency points_max start stop points idx some_step few in_range fits =
    let p = points_step points some_step few in
    let span = sub32 stop start in
    ap
      (λ step.
        get_or
          (table_loop (step + 1) step (span / step) (span % step) start (step / 2)
            ++ replicate (points_max - (step + 1)) 0)
          idx 0)
      p
    ∙ in_table (points - 1) span (omega arith) (omega arith)
    ∙ sym (get_frequency-ideal start stop points idx some_step few in_range)
  where
    in_table :
        (step span : ℕ)
        → 0 < step
        → idx ≤ step
        → get_or
            (table_loop (step + 1) step (span / step) (span % step) start (step / 2)
              ++ replicate (points_max - (step + 1)) 0)
            idx
            0
          ≡ u32 (ideal step (span / step) (span % step) start idx)
    in_table step span h k =
        get_or-append _ _ idx 0 (
          omega
            (arith, length-table_loop (step + 1) step (span / step) (span % step) start (step / 2)))
        ∙ table_loop_from (step + 1) step (span / step) (span % step) start start (step / 2) 0 0 idx
            (omega arith) (mod_lt span step h) (omega arith) (omega (arith, fits)) (omega arith)
        ∙ ap (λ t. u32 (ideal step (span / step) (span % step) start t)) (omega arith)

-- For 2 to 65535 points and a range of 32-bit frequencies, the first point is at `start` and the last
-- exactly at `stop`.
pub get_frequency-ends :
    (start stop points : ℕ)
    → 2 ≤ points
    → points < 65536
    → start < 2 ^ 32
    → stop < 2 ^ 32
    → (get_frequency (app_measurement_set_frequencies start stop points) 0 ≡ start)
      × (get_frequency (app_measurement_set_frequencies start stop points) (points - 1) ≡ stop)
get_frequency-ends start stop points some_step few fits fits' =
    let span = sub32 stop start in
    let step = points - 1 in
    (
      get_frequency-ideal start stop points 0 some_step few (omega arith)
          ∙ starts step (span / step) (span % step) (omega arith),
      get_frequency-ideal start stop points step some_step few (omega arith)
          ∙ stops step (omega arith),
    )
  where
    starts : (step delta error : ℕ) → 0 < step → u32 (ideal step delta error start 0) ≡ start
    starts step delta error h =
        ap (λ t. u32 (start + delta * 0 + t))
          (div_of (step / 2 + error * 0) 0 (step / 2) step (omega arith) (omega arith))
        ∙ omega (arith, fits)

    stops :
        (step : ℕ)
        → 0 < step
        → u32 (ideal step (sub32 stop start / step) (sub32 stop start % step) start step) ≡ stop
    stops step h =
        let span = sub32 stop start in
        let error = span % step in
        ap (λ t. u32 (start + span / step * step + t))
          (div_of (step / 2 + error * step) error (step / 2) step (omega arith) (omega arith))
        ∙ omega (arith, fits, fits', div_mod span step)
