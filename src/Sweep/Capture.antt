-- ===== src/Sweep/Capture.antt =====
-- src/rf/sweep.c: the start of a capture and the interrupt that fills it. A `systime_t` is a number
-- below 2 ^ 32; half 0 or 1 of the receive buffer is what an interrupt brings.
pub mod Laws
use nano_vna_x.Base.{
  ℕ, ◌+◌, ◌-◌, ◌%◌, ◌^◌, ◌≡◌, Bool, true, false, Option, none, some, List, [], ◌∷◌, ◌++◌, ltb, ◌==◌,
  ◌||◌, if◌then◌else◌, u32, sub32,
}

-- ready_time and wait_count, with `config._bandwidth`
pub record Capture : Type 0 where
  pub ready_time : ℕ
  pub wait_count : ℕ
  pub bandwidth : ℕ

-- What an interrupt does with the accumulators.
pub data Dsp : Type 0 where
  reset : Dsp
  process : ℕ → Dsp

-- An interrupt at a time, with the half that the DMA has filled.
pub record Interrupt : Type 0 where
  pub time : ℕ
  pub half : ℕ

unfoldable pub sweep_service_start_capture : ℕ → ℕ → Capture → Capture
sweep_service_start_capture now delay_ticks c = record c {
  ready_time = u32 (now + delay_ticks);
  wait_count = (c.bandwidth + 2) % 2 ^ 16;
}

unfoldable pub i2s_lld_serve_rx_interrupt : Interrupt → Capture → Capture × List Dsp
i2s_lld_serve_rx_interrupt i c =
    let counted = record c { wait_count = c.wait_count - 1 } in
    if c.wait_count == 0 || ltb i.time c.ready_time
    then (c, [])
    else if ltb (c.bandwidth + 2) c.wait_count
    then (counted, [])
    else if c.wait_count == c.bandwidth + 2
    then (counted, reset ∷ [])
    else (counted, process i.half ∷ [])

-- A run of interrupts.
unfoldable pub run_interrupts : List Interrupt → Capture → Capture × List Dsp
run_interrupts [] c = (c, [])
run_interrupts (i ∷ is) c =
    let (c', now) = i2s_lld_serve_rx_interrupt i c in
    let (c'', later) = run_interrupts is c' in (c'', now ++ later)

-- One look of sweep_service_wait_for_capture at the time `now`, in a wait that began at `start`: the
-- result, where the wait ends, and the capture behind it. The timeout is in ticks.
unfoldable pub wait_for_capture_look : ℕ → ℕ → ℕ → Capture → Option Bool × Capture
wait_for_capture_look timeout start now c =
    if c.wait_count == 0
    then (some true, c)
    else if ltb (sub32 now start) timeout
    then (none, c)
    else (some false, record c { wait_count = 0 })
