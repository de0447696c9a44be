-- ===== src/Closure/Outcome.antt =====
-- `main` of scripts/close_cpu_cross_coverage.py.
use pipelined_core.Common.{
  ℕ, Option, none, some, map, Result, ok, err, Result-cases, ◌≡◌, inl, inr, refl, ap, subst,
  some_inj,
}
use pipelined_core.Common.Exec.{Post}
use pipelined_core.Coverage.Report.{Report, summarize}
use pipelined_core.Coverage.Sums.{AddsUp, summarize-AddsUp}
use pipelined_core.Closure.Record.{Error, case_failed, Tools, Manifest}
use pipelined_core.Closure.{State, close, begun, main}
use pipelined_core.Closure.Cases.{case_key, frozen_key, Sound, LastFailed, Raised}
use pipelined_core.Closure.Complete.{
  Counted, Finished, Anything, close-Finished, search-cases, replay-cases,
}

module _ (t : Tools) where
  -- What is shown of the outcome of a search, and of a replay.
  abbrev AfterSearch : Result Error (Unit {0}) × State t → Type 0
  AfterSearch = Post (λ u s. Finished s × Counted s.evidence.cases) (Raised Counted)

  abbrev AfterReplay : Manifest → Result Error (Unit {0}) × State t → Type 0
  AfterReplay m =
      Post (λ u s. Finished s × (map case_key s.evidence.cases ≡ map frozen_key m.seeds))
        (Raised Anything)

  begun-Sound : (w : t.World) (baseline : Report) → AddsUp baseline → Sound (begun t w baseline)
  begun-Sound w baseline adds = record { passed = tt; adds = adds }

  searched :
      (w : t.World) (baseline : Report)
      → AddsUp baseline
      → AfterSearch (close t none baseline (begun t w baseline))
  searched w baseline adds =
      close-Finished Counted Counted (λ cs c. c) none baseline (begun t w baseline)
        (search-cases baseline (begun t w baseline) (begun-Sound w baseline adds, (refl, refl)))

  replayed :
      (m : Manifest) (w : t.World) (baseline : Report)
      → AddsUp baseline
      → AfterReplay m (close t (some m) baseline (begun t w baseline))
  replayed m w baseline adds =
      close-Finished (λ cs. map case_key cs ≡ map frozen_key m.seeds) Anything (λ cs c. tt) (some m)
        baseline (begun t w baseline)
        (replay-cases m baseline (begun t w baseline) (begun-Sound w baseline adds, refl))

  main-close :
      (frozen : Option Manifest) (w : t.World) {r : Result Error (Unit {0})} {s : State t}
      → main t frozen w ≡ (r, some s)
      → (baseline : Report) × AddsUp baseline
        × (close t frozen baseline (begun t w baseline) ≡ (r, s))
  unfolding main
  main-close frozen w h = elim (Result-cases (summarize t.model t.model (t.files w))) [
    | inl (e, off) ↦ (let g = ap (λ o. o.1) (rw (main, off) at h) in cc g)
    | inr (baseline, on) ↦
        let g = rw (main, on) at h in
        let first = ap (λ o. o.0) g in
        let second = some_inj (ap (λ o. o.1) g) in
        (baseline, summarize-AddsUp t.model t.model (t.files w) on, λ i. (first i, second i))
  ]

  main-AfterSearch :
      (w : t.World) {r : Result Error (Unit {0})} {s : State t}
      → main t none w ≡ (r, some s)
      → AfterSearch (r, s)
  main-AfterSearch w h =
      let (baseline, adds, e) = main-close none w h in
      subst AfterSearch e (searched w baseline adds)

  main-AfterReplay :
      (m : Manifest) (w : t.World) {r : Result Error (Unit {0})} {s : State t}
      → main t (some m) w ≡ (r, some s)
      → AfterReplay m (r, s)
  main-AfterReplay m w h =
      let (baseline, adds, e) = main-close (some m) w h in
      subst (AfterReplay m) e (replayed m w baseline adds)

  -- Where the script ends without an error, every case in the evidence has passed, the file holds
  -- the evidence, the cross is complete, and no bin of its group is left uncovered.
  pub main-Finished :
      (frozen : Option Manifest) (w : t.World) {s : State t}
      → main t frozen w ≡ (ok tt, some s)
      → Finished s
  main-Finished none w h = (main-AfterSearch w h).0
  main-Finished (some m) w h = (main-AfterReplay m w h).0

  -- Where the comparison of a case has failed, this case is the last one in the evidence, all before
  -- it have passed, and the file holds that evidence.
  pub main-LastFailed :
      (frozen : Option Manifest) (w : t.World) {seed : ℕ} {s : State t}
      → main t frozen w ≡ (err (case_failed seed), some s)
      → LastFailed seed s
  main-LastFailed none w h = (main-AfterSearch w h).0
  main-LastFailed (some m) w h = (main-AfterReplay m w h).0

  -- However a search ends, with a success or with any error, the seeds of its cases are 1000, 1001
  -- and so on, one for each case.
  pub main-Counted :
      (w : t.World) (r : Result Error (Unit {0})) {s : State t}
      → main t none w ≡ (r, some s)
      → Counted s.evidence.cases
  main-Counted w (ok tt) h = (main-AfterSearch w h).1
  main-Counted w (err f) h = (main-AfterSearch w h).1

  -- A replay that ends without an error has run the seeds of the manifest on their targets, each
  -- once and in its order.
  pub main-frozen_key :
      (m : Manifest) (w : t.World) {s : State t}
      → main t (some m) w ≡ (ok tt, some s)
      → map case_key s.evidence.cases ≡ map frozen_key m.seeds
  main-frozen_key m w h = (main-AfterReplay m w h).1
