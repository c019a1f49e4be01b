-- ===== src/Sweep/Snapshots/Race/Guarded.antt =====
-- Why a sweep does not write while a reader has its snapshot.
use nano_vna_x.Base.{
  ℕ, ◌≡◌, refl, sym, ap, subst, Bool, true, false, Option, none, some, List, arith,
}
use nano_vna_x.Storage.{update}
use nano_vna_x.Sweep.Snapshots.{
  Service, Snapshot, sweep_service_begin_measurement, sweep_service_end_measurement,
  sweep_service_increment_generation, copy_released, snapshot_look, sweep_service_snapshot_release,
}
use nano_vna_x.Sweep.Snapshots.Race.{
  Phase, idle, waited, begun, sweeping, ended, returned, handling, System, Step, loads, calls_sweep,
  waits, begins, sweep_waits, writes, sweep_returns, renormalizes, ends, counts, transforms,
  handles, cancels, acquires, releases, Reach, here, next, Unchanged, IsQuiet, IsPlain,
}

abbrev holds : Option (Snapshot × List ℕ) → Bool
holds none = false
holds (some r) = true

abbrev in_sweep : Phase → Bool
in_sweep idle = false
in_sweep waited = false
in_sweep (begun ticks) = true
in_sweep (sweeping ticks) = true
in_sweep (returned completed) = false
in_sweep (handling channel) = false
in_sweep ended = false

abbrev writing : Phase → Bool
writing idle = false
writing waited = false
writing (begun ticks) = false
writing (sweeping ticks) = true
writing (returned completed) = false
writing (handling channel) = false
writing ended = false

-- The flags say where the threads stand, and a sweep that writes has no reader.
record IsGuarded (s : System) : Type 0 where
  busy : s.service.sweep_in_progress ≡ in_sweep s.phase
  copied : s.service.sweep_copy_in_progress ≡ holds s.reader
  alone : writing s.phase ≡ true → s.reader ≡ none
  unchanged : Unchanged s.reader s.measured
  plain : IsPlain s

snapshot_look-channel :
    (channel points : ℕ) (s : Service) (snap : Snapshot) (service : Service)
    → snapshot_look channel points s ≡ some (snap, service)
    → snap.channel ≡ channel
unfolding snapshot_look
snapshot_look-channel channel points s snap service e = ground (arith, e)

Step-IsGuarded : {s t : System} → IsGuarded s → Step s t → IsGuarded t
unfolding copy_released snapshot_look sweep_service_begin_measurement sweep_service_end_measurement
    sweep_service_increment_generation sweep_service_snapshot_release
Step-IsGuarded g (loads s channel block p r) = absurd (ground (arith, g.plain.2, r))
Step-IsGuarded g (calls_sweep s p) = record {
  busy = refl;
  copied = g.copied;
  alone = λ w. cc;
  unchanged = g.unchanged;
  plain = g.plain;
}
Step-IsGuarded g (waits s p r) = record {
  busy = ground (arith, g.busy, p);
  copied = g.copied;
  alone = λ w. cc;
  unchanged = g.unchanged;
  plain = g.plain;
}
Step-IsGuarded g (begins s p) = record {
  busy = refl;
  copied = g.copied;
  alone = λ w. cc;
  unchanged = g.unchanged;
  plain = g.plain;
}
Step-IsGuarded g (sweep_waits s ticks p r) = record {
  busy = ground (arith, g.busy, p);
  copied = g.copied;
  alone = λ w. ground (arith, g.copied, r);
  unchanged = g.unchanged;
  plain = g.plain;
}
Step-IsGuarded g (writes s ticks channel block p) = record {
  busy = g.busy;
  copied = g.copied;
  alone = g.alone;
  unchanged =
      subst (λ r. Unchanged r (update s.measured channel block)) (sym (g.alone (ground (arith, p))))
        tt;
  plain = g.plain;
}
Step-IsGuarded g (sweep_returns s ticks completed p) = record {
  busy = ground arith;
  copied = g.copied;
  alone = λ w. absurd (ground (arith, w));
  unchanged = g.unchanged;
  plain = g.plain;
}
Step-IsGuarded g (renormalizes s block p r) = absurd (ground (arith, g.plain.0, r))
Step-IsGuarded g (ends s completed p) = record {
  busy = ground arith;
  copied = g.copied;
  alone = λ w. absurd (ground (arith, w));
  unchanged = g.unchanged;
  plain = g.plain;
}
Step-IsGuarded g (counts s p) = record {
  busy = ground (arith, g.busy, p);
  copied = g.copied;
  alone = λ w. cc;
  unchanged = g.unchanged;
  plain = g.plain;
}
Step-IsGuarded g (transforms s channel p small r) = absurd (ground (arith, g.plain.1, r))
Step-IsGuarded g (handles s channel p r) = record {
  busy = ground (arith, g.busy, p);
  copied = g.copied;
  alone = λ w. cc;
  unchanged = g.unchanged;
  plain = g.plain;
}
Step-IsGuarded g (cancels s) = record {
  busy = g.busy;
  copied = g.copied;
  alone = g.alone;
  unchanged = g.unchanged;
  plain = g.plain;
}
Step-IsGuarded g (acquires s channel points snap service p small r) = record {
  busy = ground (arith, g.busy, r);
  copied = ground (arith, r);
  alone = λ w. absurd (ground (arith, g.busy, r, w));
  unchanged = ap s.measured (snapshot_look-channel channel points s.service snap service r);
  plain = g.plain;
}
Step-IsGuarded g (releases s snap seen p) = record {
  busy = g.busy;
  copied = refl;
  alone = λ w. refl;
  unchanged = tt;
  plain = g.plain;
}

Reach-IsGuarded : {s t : System} → IsGuarded s → Reach s t → IsGuarded t
Reach-IsGuarded g here = g
Reach-IsGuarded g (next r st) = Step-IsGuarded (Reach-IsGuarded g r) st

-- From a quiet system in which the pipeline does not renormalize, the result is not shown in the time
-- domain and no file of data is loaded, in every interleaving of the ticks of the engine and of the
-- sweeps that its service loop calls with a reader, the data of the reader's channel is not written
-- while the reader has its snapshot, though a reader may get in between the wait and the begin of a
-- measurement.
pub Reach-Unchanged :
    {s t : System} → IsQuiet s → IsPlain s → Reach s t → Unchanged t.reader t.measured
Reach-Unchanged {s} quiet plain r =
    (Reach-IsGuarded
      (record {
        busy = ground (arith, quiet.0, quiet.2);
        copied = ground (arith, quiet.1, quiet.3);
        alone = λ w. quiet.1;
        unchanged = subst (λ x. Unchanged x s.measured) (sym quiet.1) tt;
        plain = plain;
      })
      r).unchanged
