-- ===== src/Lockstep/Run/Exact.antt =====
-- Exactly the runs that exit with status 0.
use pipelined_core.Common.{Bool, true, false, not, ◌&&◌, ◌==◌, ok, ◌≡◌, ◌↔◌, refl, ap, ◌∙◌}
use pipelined_core.Lockstep.Error.{extra_retirement}
use pipelined_core.Lockstep.Event.{Event, cycle, done, unknown, retire}
use pipelined_core.Lockstep.Exec.{◌>>=◌, ◌>>◌, pure, exec_raise_if, bind-eq-ok}
use pipelined_core.Lockstep.Spike.{Processes, dut_event}
use pipelined_core.Lockstep.State.{Args, Locals, initial}
use pipelined_core.Lockstep.Run.{
  Ended, matched, is_done, after_loop, closing, enough, run, main, with_done,
}
use pipelined_core.Lockstep.Run.Terminates.{not_raised, run-eq-ok, enough-lt}
use pipelined_core.Lockstep.Run.Verdict.{matched_before, run-Verdict, status-zero}
use pipelined_core.Lockstep.Run.Accepts.{
  Accepted, final, loop-final, run_body-matched, with_done-positive, main_accepts,
}

module _ (p : Processes) (args : Args) where
  is_done-eq : (event : Event) → not (is_done p event) ≡ false → event ≡ done
  is_done-eq cycle h = cc h
  is_done-eq done h = refl
  is_done-eq unknown h = cc h
  is_done-eq (retire r) h = cc h

  after_loop-asked_done :
      (l : Locals) (v : p.World) {e : Ended}
      → (args.until_trap && not (l.traps == 1)) ≡ false
      → (after_loop p args (matched l) v).0 ≡ ok e
      → args.require_done ≡ true
      → (dut_event p v).0 ≡ ok done
  unfolding after_loop ◌>>=◌
  after_loop-asked_done l v trapped h asked =
      let asks = rw (after_loop, trapped, asked) at h in
      let (event, got, h1) =
        bind-eq-ok (dut_event p)
          (λ event.
            exec_raise_if (not (is_done p event)) (extra_retirement args.limit) >> pure (matched l))
          v asks in
      let (u, quiet, h2) =
        bind-eq-ok (exec_raise_if (not (is_done p event)) (extra_retirement args.limit)) _ _ h1 in
      got
      ∙ ap ok (
          is_done-eq event (
            not_raised (not (is_done p event)) (extra_retirement args.limit) (dut_event p v).1
              quiet))

  closing-clean :
      (l : Locals) (clean : Bool) {e : Ended}
      → closing p (ok (matched l)) clean ≡ ok e
      → clean ≡ true
  closing-clean l true h = refl
  closing-clean l false h = cc h

  run-Accepted : (w : p.World) {l : Locals} → (run p args w).0 ≡ ok (matched l) → Accepted p args w
  unfolding run
  run-Accepted w {l} h =
      let v = run-Verdict p args w h in
      let (skipped, end, aligned, looped, closed) = run-eq-ok p args w h in
      let (same, trapped) = matched_before p args end _ closed in
      let exact =
        loop-final p args l (enough p args) initial _ v.compared (enough-lt p args) v.passes in
      let asked : args.require_done ≡ true → (dut_event p (final v.passes)).0 ≡ ok done =
        after_loop-asked_done l (final v.passes) trapped (rw (same, exact) at closed) in
      let body = run_body-matched p args w aligned v.passes v.one_trap asked in
      record {
        skipped = skipped;
        end = l;
        compared = v.compared;
        aligned = aligned;
        passes = v.passes;
        one_trap = v.one_trap;
        done_at_end = asked;
        clean = closing-clean l _ (rw (run, body) at h);
      }

-- For a positive limit and watchdog, the exit status is 0 exactly for a core that agrees with Spike to
-- the end: the alignment succeeds, the events that follow agree one by one up to the limit or the
-- trap, one trap is among them where one is asked for, the DUT says that it is done where that is
-- asked for, and it shuts down with return code 0.
pub main_iff :
    (p : Processes) (given : Args) (w : p.World)
    → (given.limit == 0) ≡ false
    → (given.watchdog == 0) ≡ false
    → (main p given w ≡ 0) ↔ Accepted p (with_done given) w
unfolding main
main_iff p given w some_events some_cycles = (
  λ h.
      let fine = with_done-positive given given.until_trap some_events some_cycles in
      let (l, e) = status-zero _ (rw (main, fine) at h) in run-Accepted p (with_done given) w e,
  main_accepts p given w some_events some_cycles,
)
