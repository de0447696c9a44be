-- ===== src/Cached/Verified.antt =====
-- `main` of scripts/verify_cached_core.py and the runs of its scenarios.
use pipelined_core.Common.{List, [], ◌∷◌, ok, ◌≡◌}
use pipelined_core.Common.Exec.{◌>>=◌, lift, bind-eq-ok}
use pipelined_core.Common.Text.{Text}
use pipelined_core.Lockstep.Event.{Retire}
use pipelined_core.Cached.{Simulator, run}
use pipelined_core.Cached.Heard.{Ran, run_iff}
use pipelined_core.Cached.Scenarios.{Scenario, scenarios, image, check_all, main}

-- Each scenario in its order, from the world that the one before it has left: the simulator has run
-- as `Ran` says, and the check holds of its events and its output.
pub data Verified (sim : Simulator) (build : Text) : sim.World → List Scenario → Type 0 where
  finished : {w : sim.World} → Verified sim build w []
  verified :
      {w : sim.World} {s : Scenario} {ss : List Scenario} {events : List Retire} {stderr : Text}
      → Ran sim (image build s.name) s.environment w events stderr
      → s.check events stderr ≡ ok tt
      → Verified sim build (run sim (image build s.name) s.environment w).1 ss
      → Verified sim build w (s ∷ ss)

module _ (sim : Simulator) (build : Text) where
  check_all-Verified :
      (ss : List Scenario) (w : sim.World)
      → (check_all sim build ss w).0 ≡ ok tt
      → Verified sim build w ss
  unfolding check_all
  check_all-Verified [] w h = finished
  check_all-Verified (s ∷ ss) w h =
      let (out, ran, h1) =
        bind-eq-ok (run sim (image build s.name) s.environment)
          (λ o. lift (s.check o.0 o.1) >>= λ _. check_all sim build ss) w h in
      let v = (run sim (image build s.name) s.environment w).1 in
      let (u, checked, h2) =
        bind-eq-ok (lift (s.check out.0 out.1)) (λ _. check_all sim build ss) v h1 in
      verified ((run_iff sim (image build s.name) s.environment w out.0 out.1).0 ran) checked
        (check_all-Verified ss v h2)

  -- Where `main` ends without an error, every scenario has run to its trap within the watchdog, and
  -- its check holds.
  pub main-Verified :
      (w : sim.World) → (main sim build w).0 ≡ ok tt → Verified sim build w scenarios
  unfolding main
  main-Verified w h =
      let (u, all, _) = bind-eq-ok (check_all sim build scenarios) _ w h in
      check_all-Verified scenarios w all
