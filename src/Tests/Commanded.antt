-- ===== src/Tests/Commanded.antt =====
-- src/sys/shell_commands.c: commands with concrete arguments.
use nano_vna_x.Base.{ℕ, ◌≡◌, refl, true, false, none, some, [], ◌∷◌, replicate, arith}
use nano_vna_x.Commands.{quiet}
use nano_vna_x.Commands.Marker.{Markers, cmd_marker}
use nano_vna_x.Commands.Marker.Active.{IsActive, cmd_marker-IsActive}
use nano_vna_x.Commands.Range.{cmd_sweep}
use nano_vna_x.Commands.Range.Set.{text, span_word, cw_word, cmd_sweep-text, cmd_sweep_crossed}
use nano_vna_x.Commands.Scan.{Setup, cmd_scan}
use nano_vna_x.Commands.Scan.Sane.{Sane, cmd_scan-Sane}
use nano_vna_x.Range.{Range, span, set_sweep_frequency}

abbrev usual : Range
usual = record {
  frequency0 = 50000;
  frequency1 = 900000000;
  sweep_points = 101;
  center_span = false;
  var_freq = 0;
}

cmd_sweep-text_example : cmd_sweep 401 (text 1000000 ∷ text 30000000 ∷ text 201 ∷ []) usual ≡ (
  quiet,
  record usual {
    frequency0 = 1000000;
    frequency1 = 30000000;
    sweep_points = 201;
    center_span = false;
  },
)
cmd_sweep-text_example =
    cmd_sweep-text 401 1000000 30000000 201 usual (omega arith) (omega arith) (omega arith)
      (omega arith) (omega arith) (omega arith) (omega arith)

cmd_sweep_crossed_example :
    (cmd_sweep 401 (span_word ∷ text 10000000 ∷ []) usual
      ≡ (quiet, record usual { frequency0 = 10000000; frequency1 = 10000000; center_span = true }))
    × (cmd_sweep 401 (cw_word ∷ text 10000000 ∷ []) usual
        ≡ (quiet, set_sweep_frequency span 10000000 usual))
cmd_sweep_crossed_example = cmd_sweep_crossed 401 10000000 usual (omega arith) (omega arith)

abbrev plain : Setup
plain = record {
  binary = false;
  cal_apply = true;
  delay_s11 = false;
  delay_s21 = false;
  offset_s21 = false;
  cal_frequency0 = 50000;
  cal_frequency1 = 900000000;
  cal_sweep_points = 101;
}

-- scan 1000000 2000000
cmd_scan-Sane_example :
    Sane 401 (cmd_scan plain 401 ((b'1' ∷ replicate 6 b'0') ∷ (b'2' ∷ replicate 6 b'0') ∷ []) usual)
cmd_scan-Sane_example =
    cmd_scan-Sane plain 401 ((b'1' ∷ replicate 6 b'0') ∷ (b'2' ∷ replicate 6 b'0') ∷ []) usual
      (omega arith) (omega arith)

abbrev no_markers : Markers
no_markers = record {
  active_marker = none;
  markers = replicate 8 (record { enabled = false; index = 0; frequency = 0 });
}

-- marker 3 50
cmd_marker-IsActive_example :
    IsActive
      (cmd_marker
        (record { f_start = 50000; f_points = 100; f_delta = 9000; f_error = 0 })
        101
        ((b'3' ∷ []) ∷ (b'5' ∷ b'0' ∷ []) ∷ [])
        no_markers).1
cmd_marker-IsActive_example =
    cmd_marker-IsActive (record { f_start = 50000; f_points = 100; f_delta = 9000; f_error = 0 })
      101 ((b'3' ∷ []) ∷ (b'5' ∷ b'0' ∷ []) ∷ []) no_markers
      (record { eight = refl; on = λ t e. absurd (none_ne e) })
  where
    none_ne : {t : ℕ} → ¬ (none ≡ some t)
    none_ne e = cc
