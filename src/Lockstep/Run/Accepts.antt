-- ===== src/Lockstep/Run/Accepts.antt =====
-- Runs in which the core agrees with Spike to the end.
use pipelined_core.Common.{
  ℕ, ◌+◌, ◌<◌, ◌≤◌, zero, suc, Bool, true, false, not, ◌&&◌, ◌||◌, List, ltb, ltb→lt, ◌==◌, ==_iff,
  Bool-cases, ok, if◌then◌else◌, ◌≡◌, inl, inr, refl, sym, ◌∙◌, arith,
}
use pipelined_core.Lockstep.Event.{Retire, cycle, done, retire}
use pipelined_core.Lockstep.Compare.Agreement.{differences_iff}
use pipelined_core.Lockstep.Exec.{◌>>=◌}
use pipelined_core.Lockstep.Spike.{Processes, dut_event, spike_step, align_spike}
use pipelined_core.Lockstep.State.{Args, Locals, initial, inject_fault, record_event}
use pipelined_core.Lockstep.Run.{
  matched, Next, again, stop, compare_event, one_round, go_on, loop, enough, after_loop, run_body,
  shutdown, run, main, with_done,
}
use pipelined_core.Lockstep.Run.Terminates.{
  waited, counted, Progress-fuel, fuel_for, enough-lt, record_event-counts,
}
use pipelined_core.Lockstep.Run.Passes.{Compared, Passes, full, idle, next, last}
use pipelined_core.Lockstep.Run.Verdict.{count_traps, Passes-traps}

le→ltb-false : (a b : ℕ) → a ≤ b → ltb b a ≡ false
le→ltb-false a b h = ground arith

module _ {p : Processes} {args : Args} {end : Locals} where
  -- The state of the processes behind the last comparison.
  unfoldable pub final :
      {l : Locals} {w : p.World} {cs : List Compared} → Passes p args end l w cs → p.World
  final {w = w} (full b e) = w
  final (idle m g b d) = final d
  final (next c m g o i s r n d) = final d
  final {w = w} (last c m g o i s r n) = (spike_step p (dut_event p w).1).1

module _ (p : Processes) (args : Args) (l : Locals) where
  -- A comparison that agrees is recorded, and the loop goes on unless it was the trap.
  compare_event_agreed :
      (given : Retire) (c : Compared) (l' : Locals) (v : p.World)
      → given.order ≡ l.retired
      → inject_fault args.inject l.retired given ≡ ok c.event
      → (spike_step p v).0 ≡ ok c.lines
      → record_event l c.event ≡ ok l'
      → compare_event p args l given v ≡ (
        ok (if args.until_trap && c.event.trap then stop (matched l') else again l'),
        (spike_step p v).1,
      )
  unfolding compare_event ◌>>=◌
  compare_event_agreed given c l' v order injected stepped recorded =
      let ordered = (==_iff given.order l.retired).1 order in
      let same = (differences_iff c.event c.reference).1 c.agrees in
      rw (compare_event, ordered, injected, stepped, c.parsed, same, recorded) refl

  one_round-cycle :
      (w : p.World)
      → (dut_event p w).0 ≡ ok cycle
      → l.cycles_without_retire + 1 ≤ args.watchdog
      → one_round p args l w ≡ (
        ok (again (record l { cycles_without_retire = l.cycles_without_retire + 1 })),
        (dut_event p w).1,
      )
  unfolding one_round ◌>>=◌
  one_round-cycle w got below =
      let early = le→ltb-false (l.cycles_without_retire + 1) args.watchdog below in
      rw (one_round, got, early) refl

  one_round-retire :
      (w : p.World) (given : Retire)
      → (dut_event p w).0 ≡ ok (retire given)
      → one_round p args l w ≡ compare_event p args l given (dut_event p w).1
  unfolding one_round ◌>>=◌
  one_round-retire w given got = rw (one_round, got) refl

module _ (p : Processes) (args : Args) (end : Locals) where
  loop_step :
      (fuel : ℕ) (l : Locals) (w v : p.World) (n : Next)
      → ltb l.retired args.limit ≡ true
      → one_round p args l w ≡ (ok n, v)
      → loop p (suc fuel) args l w ≡ go_on p (loop p fuel args) n v
  unfolding loop ◌>>=◌
  loop_step fuel l w v n more e = rw (loop, more, e) refl

  pub loop-final :
      (fuel : ℕ) (l : Locals) (w : p.World) (cs : List Compared)
      → fuel_for p args l < fuel
      → (d : Passes p args end l w cs) → loop p fuel args l w ≡ (ok (matched end), final d)
  unfolding loop final
  loop-final zero l w cs fits d = absurd (omega arith)
  loop-final (suc fuel) l w cs fits (full b e) =
      let over = le→ltb-false args.limit l.retired b in
      rw (loop, over) (λ i. (ok (matched (sym e i)), w))
  loop-final (suc fuel) l w cs fits (idle more got below d) =
      let l' = record l { cycles_without_retire = l.cycles_without_retire + 1 } in
      loop_step fuel l w _ _ more (one_round-cycle p args l w got below)
      ∙ loop-final fuel l' _ cs
          (omega
            (arith, fits, Progress-fuel p args l l' (waited refl refl below) (ltb→lt _ _ more)))
          d
  loop-final (suc fuel) l w cs fits
        (next {l' = l'} {given = given} c more got order injected stepped recorded not_last d) =
      let agreed =
        one_round-retire p args l w given got
        ∙ compare_event_agreed p args l given c l' (dut_event p w).1 order injected stepped
            recorded in
      let (counts, fresh) = record_event-counts l c.event recorded in
      loop_step fuel l w (spike_step p (dut_event p w).1).1 (again l') more
        (agreed ∙ rw not_last refl)
      ∙ loop-final fuel l' _ _
          (omega (arith, fits, Progress-fuel p args l l' (counted counts fresh) (ltb→lt _ _ more)))
          d
  loop-final (suc fuel) l w cs fits
        (last {given = given} c more got order injected stepped recorded is_last) =
      let agreed =
        one_round-retire p args l w given got
        ∙ compare_event_agreed p args l given c end (dut_event p w).1 order injected stepped
            recorded in
      loop_step fuel l w (spike_step p (dut_event p w).1).1 (stop (matched end)) more
        (agreed ∙ rw is_last refl)

-- What `main` needs for exit status 0: the alignment succeeds, the events that follow agree with
-- Spike one by one up to the limit or the trap, one trap is among them where one is asked for, the
-- DUT says that it is done where that is asked for, and it shuts down with return code 0.
pub record Accepted (p : Processes) (args : Args) (w : p.World) : Type 0 where
  pub skipped : ℕ
  pub end : Locals
  pub compared : List Compared
  pub aligned : (align_spike p args.entry w).0 ≡ ok skipped
  pub passes : Passes p args end initial (align_spike p args.entry w).1 compared
  pub one_trap : args.until_trap ≡ true → count_traps compared ≡ 1
  pub done_at_end : args.require_done ≡ true → (dut_event p (final passes)).0 ≡ ok done
  pub clean :
      (shutdown p (if args.require_done then (dut_event p (final passes)).1 else final passes)).0
      ≡ true

trap_test : (u : Bool) (n : ℕ) → (u ≡ true → n ≡ 1) → (u && not (n == 1)) ≡ false
trap_test true n h = let e = (==_iff n 1).1 (h refl) in rw e refl
trap_test false n h = refl

module _ (p : Processes) (args : Args) where
  pub after_loop_asked :
      (l : Locals) (v : p.World)
      → (args.until_trap && not (l.traps == 1)) ≡ false
      → (args.require_done ≡ true → (dut_event p v).0 ≡ ok done)
      → after_loop p args (matched l) v
        ≡ (ok (matched l), if args.require_done then (dut_event p v).1 else v)
  unfolding after_loop ◌>>=◌
  after_loop_asked l v trapped answered = elim (Bool-cases args.require_done) [
    | inr quiet ↦ rw (after_loop, trapped, quiet) refl
    | inl asked ↦ (let e = answered asked in rw (after_loop, trapped, asked, e) refl)
  ]

  pub run_body-matched :
      (w : p.World) {skipped : ℕ} {end : Locals} {compared : List Compared}
      → (align_spike p args.entry w).0 ≡ ok skipped
      → (passes : Passes p args end initial (align_spike p args.entry w).1 compared)
      → (args.until_trap ≡ true → count_traps compared ≡ 1)
      → (args.require_done ≡ true → (dut_event p (final passes)).0 ≡ ok done)
      → run_body p args w ≡ (
        ok (matched end),
        if args.require_done then (dut_event p (final passes)).1 else final passes,
      )
  unfolding run_body ◌>>=◌
  run_body-matched w {end = end} {compared = compared} aligned passes one_trap done_at_end =
      let looped =
        loop-final p args end (enough p args) initial _ compared (enough-lt p args) passes in
      let trapped =
        trap_test args.until_trap end.traps (λ u. omega (arith, one_trap u, Passes-traps passes)) in
      rw (run_body, aligned, looped) (after_loop_asked end (final passes) trapped done_at_end)

  run-matched : (w : p.World) (a : Accepted p args w) → (run p args w).0 ≡ ok (matched a.end)
  unfolding run
  run-matched w a =
      let body = run_body-matched w a.aligned a.passes a.one_trap a.done_at_end in
      let clean = a.clean in rw (run, body, clean) refl

pub with_done-positive :
    (args : Args) (u : Bool)
    → (args.limit == 0) ≡ false
    → (args.watchdog == 0) ≡ false
    → ((if u then record args { require_done = true } else args).limit == 0
        || (if u then record args { require_done = true } else args).watchdog == 0)
      ≡ false
with_done-positive args true l w = rw (l, w) refl
with_done-positive args false l w = rw (l, w) refl

pub main_accepts :
    (p : Processes) (given : Args) (w : p.World)
    → (given.limit == 0) ≡ false
    → (given.watchdog == 0) ≡ false
    → Accepted p (with_done given) w
    → main p given w ≡ 0
unfolding main
main_accepts p given w some_events some_cycles a =
    let fine = with_done-positive given given.until_trap some_events some_cycles in
    let ran = run-matched p (with_done given) w a in rw (fine, ran) refl
