-- ===== src/Selftest/Traced.antt =====
-- Runs of the simulator up to the first trap.
use pipelined_core.Common.{
  ℕ, zero, suc, ◌<◌, Bool, true, false, Option, none, some, List, [], ◌∷◌, ◌++◌, length, Result, ok,
  err, Bool-cases, Result-cases, ◌≡◌, ◌↔◌, ◌⊎◌, inl, inr, refl, ap, ◌∙◌, subst, arith,
}
use pipelined_core.Common.Exec.{◌>>=◌, branch, branch-false, branch-true, bind-eq-ok, bind_ok}
use pipelined_core.Common.Text.{Text, codes}
use pipelined_core.Cached.{answer, line_of}
use pipelined_core.Cached.Heard.{Hears, silence, hears}
use pipelined_core.Coverage.Model
use pipelined_core.Coverage.Report.{Report, summarize}
use pipelined_core.Lockstep.Event.{Event}
use pipelined_core.Selftest.{Bench, as_coverage, is_trap, steps, stop, simulate, run}

-- None of the answers is a trap.
abbrev pub Untrapped : List Event → Type 0
Untrapped [] = Unit
Untrapped (e ∷ es) = (is_trap e ≡ false) × Untrapped es

as_coverage-eq-ok :
    {A : Type 0} (r : Result Model.Error A) {a : A} → as_coverage r ≡ ok a → r ≡ ok a
as_coverage-eq-ok (ok a) h = cc h
as_coverage-eq-ok (err e) h = cc h

module _ (b : Bench) where
  abbrev UpToTrap : ℕ → b.sim.World → b.sim.World → Type 0
  UpToTrap left w u =
      (es : List Event) × (trap : Event) × Hears b.sim w (es ++ trap ∷ []) u
      × Untrapped es
      × (is_trap trap ≡ true)
      × (length es < left)

  steps-Hears :
      (left : ℕ) (image : Text) (w : b.sim.World) {u : b.sim.World}
      → steps b left image w ≡ (ok tt, u)
      → UpToTrap left w u
  unfolding steps ◌>>=◌
  steps-Hears zero image w h = (let g = ap (λ o. o.0) h in cc g)
  steps-Hears (suc left) image w {u = u} h = elim (Result-cases (answer b.sim w).0) [
    | inl (e, a) ↦ (let g = ap (λ o. o.0) (rw (steps, a) at h) in cc g)
    | inr (e, a) ↦
        let v = (answer b.sim w).1 in
        let heard : answer b.sim w ≡ (ok e, v) = λ i. (a i, v) in
        elim (branch (is_trap e) _ _ v (rw (steps, a) at h)) [
          | inl (trapped, h2) ↦
              let same : v ≡ u = ap (λ o. o.1) h2 in
              (
                [],
                e,
                subst (λ w'. Hears b.sim w (e ∷ []) w') same (hears heard silence),
                tt,
                trapped,
                omega arith,
              )
          | inr (quiet, h2) ↦
              let (es, t, hs, un, trapped, below) = steps-Hears left image v h2 in
              (e ∷ es, t, hears heard hs, (quiet, un), trapped, omega (arith, below))
        ]
  ]

  Hears-steps :
      (left : ℕ) (image : Text) (w u : b.sim.World) (es : List Event) (trap : Event)
      → Hears b.sim w (es ++ trap ∷ []) u
      → Untrapped es
      → is_trap trap ≡ true
      → length es < left
      → steps b left image w ≡ (ok tt, u)
  unfolding steps ◌>>=◌
  Hears-steps zero image w u es t hs un trapped below =
      (let absurd : ⊥ = omega (arith, below) in elim absurd [ ])
  Hears-steps (suc left) image w u [] t (hears a silence) un trapped below =
      rw (steps, a) (branch-true (is_trap t) _ _ _ trapped)
  Hears-steps (suc left) image w u (e ∷ es) t (hears a hs) (quiet, un) trapped below =
      rw (steps, a)
        (branch-false (is_trap e) _ _ _ quiet
          ∙ Hears-steps left image _ u es t hs un trapped (omega (arith, below)))

  -- Of the run of an image without an option: up to the first trap there are fewer than 1000 answers
  -- of the simulator, behind it "quit" is taken, the status is 0, and the report is that of the
  -- files in the directory.
  pub record Traced (image directory : Text) (w : b.sim.World) (report : Report) : Type 0 where
    pub before : List Event
    pub trap : Event
    pub at_trap : b.sim.World
    pub heard : Hears b.sim (b.begin image directory w) (before ++ trap ∷ []) at_trap
    pub untrapped : Untrapped before
    pub trapped : is_trap trap ≡ true
    pub in_time : length before < 1000
    pub open_pipe : (b.sim.send (line_of (codes "quit")) at_trap).0 ≡ true
    pub status_zero : (b.wait (b.sim.send (line_of (codes "quit")) at_trap).1).0 ≡ some true
    pub summarized :
        summarize b.model b.model
          (b.files directory (b.leave (b.wait (b.sim.send (line_of (codes "quit")) at_trap).1).1))
        ≡ ok report

  exited-cases : (o : Option Bool) → ((o ≡ none) ⊎ (o ≡ some false)) ⊎ (o ≡ some true)
  exited-cases none = inl (inl refl)
  exited-cases (some false) = inl (inr refl)
  exited-cases (some true) = inr refl

  stop-eq-ok :
      (v : b.sim.World)
      → (stop b v).0 ≡ ok tt
      → ((b.sim.send (line_of (codes "quit")) v).0 ≡ true)
        × ((b.wait (b.sim.send (line_of (codes "quit")) v).1).0 ≡ some true)
        × ((stop b v).1 ≡ (b.wait (b.sim.send (line_of (codes "quit")) v).1).1)
  unfolding stop ◌>>=◌
  stop-eq-ok v h = elim (Bool-cases (b.sim.send (line_of (codes "quit")) v).0) [
    | inr shut ↦ (let g = rw (stop, shut) at h in cc g)
    | inl open_pipe ↦ elim (exited-cases (b.wait (b.sim.send (line_of (codes "quit")) v).1).0) [
      | inl (inl e) ↦ (let g = rw (stop, open_pipe, e) at h in cc g)
      | inl (inr e) ↦ (let g = rw (stop, open_pipe, e) at h in cc g)
      | inr e ↦ (open_pipe, e, rw (stop, open_pipe) refl)
    ]
  ]

  stop_ok :
      (v : b.sim.World)
      → (b.sim.send (line_of (codes "quit")) v).0 ≡ true
      → (b.wait (b.sim.send (line_of (codes "quit")) v).1).0 ≡ some true
      → stop b v ≡ (ok tt, (b.wait (b.sim.send (line_of (codes "quit")) v).1).1)
  unfolding stop ◌>>=◌
  stop_ok v open_pipe status = rw (stop, open_pipe) (rw (stop, status) refl)

  -- A run without an option returns a report exactly where `Traced` says so.
  pub run-Traced_iff :
      (image directory : Text) (w : b.sim.World) (report : Report)
      → ((run b image directory none w).0 ≡ ok report) ↔ Traced image directory w report
  unfolding run simulate ◌>>=◌
  run-Traced_iff image directory w report = (there, back)
    where
      there : (run b image directory none w).0 ≡ ok report → Traced image directory w report
      there h =
          let s = b.begin image directory w in
          elim (Result-cases (simulate b image s).0) [
            | inl (e, r) ↦ (let g = rw (run, r) at h in cc g)
            | inr (u, r) ↦
                let (i, stepped, stopped) = bind-eq-ok (steps b 1000 image) (λ _. stop b) s r in
                let v = (steps b 1000 image s).1 in
                let (es, trap, hs, un, trapped, below) =
                  steps-Hears 1000 image s (λ k. (stepped k, v)) in
                let (open_pipe, status, world) = stop-eq-ok v stopped in
                let world' =
                  ap (λ o. o.1) (bind_ok (steps b 1000 image) (λ _. stop b) s stepped) ∙ world in
                record {
                  before = es;
                  trap = trap;
                  at_trap = v;
                  heard = hs;
                  untrapped = un;
                  trapped = trapped;
                  in_time = below;
                  open_pipe = open_pipe;
                  status_zero = status;
                  summarized =
                      subst
                        (λ x. summarize b.model b.model (b.files directory (b.leave x)) ≡ ok report)
                        world' (as_coverage-eq-ok _ (rw (run, r) at h));
                }
          ]

      back : Traced image directory w report → (run b image directory none w).0 ≡ ok report
      back d =
          let s = b.begin image directory w in
          let stepped =
            Hears-steps 1000 image s d.at_trap d.before d.trap d.heard d.untrapped d.trapped
              d.in_time in
          let open_pipe = d.open_pipe in
          let status = d.status_zero in
          let summarized = d.summarized in
          let stopped : stop b d.at_trap
              ≡ (ok tt, (b.wait (b.sim.send (line_of (codes "quit")) d.at_trap).1).1) =
            stop_ok d.at_trap open_pipe status in
          let simulated =
            bind_ok (steps b 1000 image) (λ _. stop b) s (ap (λ o. o.0) stepped)
            ∙ ap (λ x. stop b x.1) stepped
            ∙ stopped in
          rw (run, simulated, summarized) refl
