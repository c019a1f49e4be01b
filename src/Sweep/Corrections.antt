-- ===== src/Sweep/Corrections.antt =====
-- src/rf/sweep.c: the corrections of a sample, pairs of a real and an imaginary part. The operations
-- of the floating-point unit are a parameter.
use nano_vna_x.Base.{Bool, if◌then◌else◌}
use nano_vna_x.Sweep.Port.{Float}

module _ (fp : Float) where
  open fp use {Num, of_int, add, sub, mul, div, is_zero, sincos}

  -- A reflection sample and a transmission sample.
  pub record Data : Type 0 where
    pub s11 : Num × Num
    pub s21 : Num × Num

  -- The error terms at a point, by the names of their indices.
  pub record Terms : Type 0 where
    pub directivity : Num × Num
    pub source_match : Num × Num
    pub reflection_tracking : Num × Num
    pub transmission_tracking : Num × Num
    pub isolation : Num × Num

  pub apply_ch0_error_term : Data → Terms → Data
  apply_ch0_error_term d c =
      let (es_re, es_im) = c.source_match in
      let s11mr = sub d.s11.0 c.directivity.0 in
      let s11mi = sub d.s11.1 c.directivity.1 in
      let err = sub (add c.reflection_tracking.0 (mul s11mr es_re)) (mul s11mi es_im) in
      let eri = add (add c.reflection_tracking.1 (mul s11mr es_im)) (mul s11mi es_re) in
      let sq = add (mul err err) (mul eri eri) in
      let inv = div (of_int 1) sq in
      if is_zero sq then record d { s11 = (of_int 0, of_int 0) } else record d {
        s11 = (
          mul (add (mul s11mr err) (mul s11mi eri)) inv,
          mul (sub (mul s11mi err) (mul s11mr eri)) inv,
        );
      }

  -- The flag is CALSTAT_ENHANCED_RESPONSE of `cal_status`.
  pub apply_ch1_error_term : Bool → Data → Terms → Data
  apply_ch1_error_term enhanced d c =
      let (es_re, es_im) = c.source_match in
      let (et_re, et_im) = c.transmission_tracking in
      let s21mr = sub d.s21.0 c.isolation.0 in
      let s21mi = sub d.s21.1 c.isolation.1 in
      let re = sub (mul s21mr et_re) (mul s21mi et_im) in
      let im = add (mul s21mi et_re) (mul s21mr et_im) in
      let esr = sub (of_int 1) (sub (mul es_re d.s11.0) (mul es_im d.s11.1)) in
      let esi = sub (of_int 0) (add (mul es_im d.s11.0) (mul es_re d.s11.1)) in
      if enhanced
      then record d { s21 = (sub (mul esr re) (mul esi im), add (mul esi re) (mul esr im)) }
      else record d { s21 = (re, im) }

  pub apply_edelay : Num → Num × Num → Num × Num
  apply_edelay w (re, im) =
      let (s, c) = sincos w in (sub (mul re c) (mul im s), add (mul im c) (mul re s))

  pub apply_offset : Num × Num → Num → Num × Num
  apply_offset (re, im) offset = (mul re offset, mul im offset)
