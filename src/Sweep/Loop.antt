-- ===== src/Sweep/Loop.antt =====
-- The loop of a sweep of both channels keeps what it has stored in order.
use nano_vna_x.Base.{
  ℕ, zero, suc, ◌+◌, ◌-◌, ◌%◌, ◌^◌, ◌<◌, ◌≡◌, inl, inr, refl, sym, ◌∙◌, subst, ap, false, some,
  List, ◌++◌, append-nil, append_assoc, take, arith, Bool-cases,
}
use mathlib.Core.Option.{some-injective}
use nano_vna_x.Sweep.Port.{Float}
use nano_vna_x.Sweep.State.{
  RfState, idle, setup_freq, setup_measure, wait_capture, process, next_step, fault, flag,
  ch0_measure, ch1_measure, Settings, Input, Machine, publish_progress, sweep_progress_update,
}
use nano_vna_x.Sweep.{is_over, step_from, fsm_step, fsm_loop, fsm_next_step}
use nano_vna_x.Sweep.Termination.{SaneAt, step-Below}
use nano_vna_x.Sweep.Stages.{point_plan, plan, fault-Stage}
use nano_vna_x.Sweep.Stores.{
  places, IsRecorded, setup_freq-IsRecorded, setup_measure-IsRecorded, process-IsRecorded,
}

module _ (fp : Float) where
  fsm_next_step-same :
      (cfg : Settings fp) (m : Machine fp)
      → ((fsm_next_step fp cfg m).stored ≡ m.stored)
        × ((fsm_next_step fp cfg m).mask ≡ m.mask)
        × ((fsm_next_step fp cfg m).channel_index ≡ m.channel_index)
  unfolding fsm_next_step sweep_progress_update publish_progress
  fsm_next_step-same cfg m = (ground arith, ground arith, ground arith)

  next_step-IsRecorded :
      (cfg : Settings fp) (i : Input fp) (base : List (ℕ × ℕ)) (m : Machine fp)
      → cfg.points < 2 ^ 16
      → 0 < cfg.points - m.p_sweep
      → IsRecorded fp cfg base next_step m
      → IsRecorded fp cfg base setup_freq (fsm_next_step fp cfg m)
  unfolding fsm_next_step
  next_step-IsRecorded cfg i base m small more r =
      let (same_stored, same_mask, same_channel) = fsm_next_step-same cfg m in
      record {
        both = (
          ap (λ b. flag b ch0_measure) same_mask ∙ r.both.0,
          ap (λ b. flag b ch1_measure) same_mask ∙ r.both.1,
        );
        passed = omega arith;
        k = 0;
        stage = (refl, same_channel ∙ r.stage.1);
        recorded =
            ap (places fp) same_stored
            ∙ r.recorded
            ∙ ap (λ n. (base ++ plan m.p_sweep) ++ take n (point_plan m.p_sweep)) r.stage.0
            ∙ append_assoc base (plan m.p_sweep) (point_plan m.p_sweep)
            ∙ ap (λ n. base ++ plan n) (sym place')
            ∙ sym (append-nil _);
      }
    where
      place' : (m.p_sweep + 1) % 65536 ≡ suc m.p_sweep
      place' = omega arith

  wait-IsRecorded :
      (cfg : Settings fp) (i : Input fp) (base : List (ℕ × ℕ)) (m : Machine fp)
      → IsRecorded fp cfg base wait_capture m
      → IsRecorded fp cfg base
          (step_from fp wait_capture cfg i m).state
          (step_from fp wait_capture cfg i m)
  unfolding step_from
  wait-IsRecorded cfg i base m r = elim (Bool-cases i.captured) [
    | inl e ↦
        rw e record {
          both = r.both;
          passed = r.passed;
          k = r.k;
          stage = r.stage;
          recorded = r.recorded;
        }
    | inr e ↦ rw e record {
      both = r.both;
      passed = r.passed;
      k = r.k;
      stage = fault-Stage _ _ m.channel_index _ r.stage;
      recorded = r.recorded;
    }
  ]

  step-IsRecorded :
      (s : RfState) (cfg : Settings fp) (i : Input fp) (base : List (ℕ × ℕ)) (m : Machine fp)
      → m.state ≡ s
      → cfg.points < 2 ^ 16
      → i.settling < 255
      → is_over s ≡ false
      → SaneAt fp s cfg m
      → IsRecorded fp cfg base s m
      → IsRecorded fp cfg base (step_from fp s cfg i m).state (step_from fp s cfg i m)
  unfolding is_over step_from fsm_next_step
  step-IsRecorded idle cfg i base m at small settled runs sane r = absurd (ground arith)
  step-IsRecorded setup_freq cfg i base m at small settled runs sane r =
      setup_freq-IsRecorded fp cfg i base m settled r
  step-IsRecorded setup_measure cfg i base m at small settled runs sane r =
      setup_measure-IsRecorded fp cfg i base m at r
  step-IsRecorded wait_capture cfg i base m at small settled runs sane r =
      wait-IsRecorded cfg i base m r
  step-IsRecorded process cfg i base m at small settled runs sane r =
      process-IsRecorded fp cfg i base m r
  step-IsRecorded next_step cfg i base m at small settled runs sane r =
      next_step-IsRecorded cfg i base m small sane.0 r
  step-IsRecorded fault cfg i base m at small settled runs sane r = absurd (ground arith)

  pub fsm_loop-IsRecorded :
      (fuel : ℕ) (cfg : Settings fp) (inputs : ℕ → Input fp) (turn : ℕ) (base : List (ℕ × ℕ))
      (m last : Machine fp)
      → cfg.points < 2 ^ 16
      → ((j : ℕ) → (inputs j).settling < 255)
      → SaneAt fp m.state cfg m
      → IsRecorded fp cfg base m.state m
      → fsm_loop fp fuel cfg inputs turn m ≡ some last
      → IsRecorded fp cfg base last.state last
  unfolding fsm_loop fsm_step
  fsm_loop-IsRecorded zero cfg inputs turn base m last small settled sane r ends = absurd (cc)
  fsm_loop-IsRecorded (suc fuel) cfg inputs turn base m last small settled sane r ends =
      elim (Bool-cases (is_over m.state)) [
        | inl e ↦
            let same = some-injective m last (rw e at ends) in
            subst (λ x. IsRecorded fp cfg base x.state x) same r
        | inr e ↦
            let (sane', _) = step-Below fp m.state cfg (inputs turn) m refl small e sane in
            let r' =
              step-IsRecorded m.state cfg (inputs turn) base m refl small (settled turn) e sane r in
            fsm_loop-IsRecorded fuel cfg inputs (turn + 1) base
              (step_from fp m.state cfg (inputs turn) m) last small settled sane' r' (rw e at ends)
      ]
