-- ===== src/Sweep/Capture/Laws.antt =====
-- Which buffers a capture takes in.
use nano_vna_x.Base.{
  ℕ, zero, suc, ◌+◌, ◌-◌, ◌%◌, ◌^◌, ◌≤◌, ◌<◌, ◌≡◌, refl, ap, sym, ◌∙◌, true, false, List, [], ◌∷◌,
  ◌++◌, ltb, ◌==◌, if◌then◌else◌, u32, length, arith, Bool-cases, inl, inr,
}
use nano_vna_x.Sweep.Capture.{
  Capture, Dsp, reset, process, Interrupt, sweep_service_start_capture, i2s_lld_serve_rx_interrupt,
  run_interrupts,
}

-- The halves of the interrupts that come at `ready` or later.
abbrev pub ready_halves : ℕ → List Interrupt → List ℕ
ready_halves ready [] = []
ready_halves ready (i ∷ is) =
    if ltb i.time ready then ready_halves ready is else i.half ∷ ready_halves ready is

-- With `n` interrupts still awaited of all, the first of which resets the accumulators.
abbrev pub taken_in : ℕ → ℕ → List ℕ → List Dsp
taken_in zero all halves = []
taken_in (suc n) all [] = []
taken_in (suc n) all (h ∷ halves) =
    (if suc n == all then reset else process h) ∷ taken_in n all halves

taken_nothing : (n all : ℕ) → [] ≡ taken_in n all []
taken_nothing zero all = refl
taken_nothing (suc n) all = refl

-- An interrupt that comes too early is not counted.
early_interrupt :
    (i : Interrupt) (c : Capture)
    → ltb i.time c.ready_time ≡ true
    → i2s_lld_serve_rx_interrupt i c ≡ (c, [])
unfolding i2s_lld_serve_rx_interrupt
early_interrupt i c early = ground arith

late_from :
    (i : Interrupt) (ready n bandwidth : ℕ) (halves : List ℕ)
    → ltb i.time ready ≡ false
    → n ≤ bandwidth + 2
    → let c : Capture = record { ready_time = ready; wait_count = n; bandwidth = bandwidth } in
      ((i2s_lld_serve_rx_interrupt i c).0 ≡ record c { wait_count = n - 1 })
      × (taken_in n (bandwidth + 2) (i.half ∷ halves)
          ≡ (i2s_lld_serve_rx_interrupt i c).1 ++ taken_in (n - 1) (bandwidth + 2) halves)
unfolding i2s_lld_serve_rx_interrupt
late_from i ready zero bandwidth halves late h = (ground arith, ground arith)
late_from i ready (suc n) bandwidth halves late h =
    let p : suc n - 1 ≡ n = omega arith in (ground arith, rw p (ground arith))

late_interrupt :
    (i : Interrupt) (c : Capture) (halves : List ℕ)
    → ltb i.time c.ready_time ≡ false
    → c.wait_count ≤ c.bandwidth + 2
    → ((i2s_lld_serve_rx_interrupt i c).0 ≡ record c { wait_count = c.wait_count - 1 })
      × (taken_in c.wait_count (c.bandwidth + 2) (i.half ∷ halves)
          ≡ (i2s_lld_serve_rx_interrupt i c).1
            ++ taken_in (c.wait_count - 1) (c.bandwidth + 2) halves)
late_interrupt i c halves late h = late_from i c.ready_time c.wait_count c.bandwidth halves late h

-- What is taken in from interrupts on, and how many are awaited behind them.
abbrev TakesIn : List Interrupt → Capture → Capture × List Dsp → Type 0
TakesIn is c (c', acts) =
    (acts ≡ taken_in c.wait_count (c.bandwidth + 2) (ready_halves c.ready_time is))
    × (c'.wait_count ≡ c.wait_count - length (ready_halves c.ready_time is))

run_interrupts-TakesIn :
    (is : List Interrupt) (c : Capture)
    → c.wait_count ≤ c.bandwidth + 2
    → TakesIn is c (run_interrupts is c)
unfolding run_interrupts
run_interrupts-TakesIn [] c h = (taken_nothing c.wait_count (c.bandwidth + 2), omega arith)
run_interrupts-TakesIn (i ∷ is) c h = elim (Bool-cases (ltb i.time c.ready_time)) [
  | inl early ↦ rw (early_interrupt i c early, early) (run_interrupts-TakesIn is c h)
  | inr late ↦
      let halves = ready_halves c.ready_time is in
      let (counted, acts) = late_interrupt i c halves late h in
      let (later, left) =
        run_interrupts-TakesIn is (record c { wait_count = c.wait_count - 1 }) (omega arith) in
      rw (counted, late)
        (ap (λ l. (i2s_lld_serve_rx_interrupt i c).1 ++ l) later ∙ sym acts, omega (arith, left))
]

-- From a start at `now`, on a clock that does not wrap before the delay is over, the interrupts
-- before that time are ignored. Of those behind it the first resets the accumulators, the halves of
-- the next bandwidth + 1 are processed, each once and in order, and the rest are ignored; for each
-- one that comes one less is awaited.
pub start_capture-run_interrupts :
    (now delay_ticks : ℕ) (c : Capture) (is : List Interrupt)
    → c.bandwidth + 2 < 2 ^ 16
    → now + delay_ticks < 2 ^ 32
    → let r = run_interrupts is (sweep_service_start_capture now delay_ticks c) in
      let halves = ready_halves (now + delay_ticks) is in
      (r.1 ≡ taken_in (c.bandwidth + 2) (c.bandwidth + 2) halves)
      × (r.0.wait_count ≡ c.bandwidth + 2 - length halves)
unfolding sweep_service_start_capture
start_capture-run_interrupts now delay_ticks c is fits time =
    let p : (c.bandwidth + 2) % 2 ^ 16 ≡ c.bandwidth + 2 = omega arith in
    let q : u32 (now + delay_ticks) ≡ now + delay_ticks = omega arith in
    rw (p, q)
      (run_interrupts-TakesIn is
        (record c { ready_time = now + delay_ticks; wait_count = c.bandwidth + 2 }) (omega arith))
