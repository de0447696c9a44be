-- ===== src/Lockstep/Run/Terminates.antt =====
-- The loop of `run` ends: each round retires an event or counts a cycle that the watchdog limits.
use pipelined_core.Common.{
  ℕ, zero, suc, ◌+◌, ◌-◌, ◌*◌, ◌≤◌, ◌<◌, Bool, true, false, not, ◌&&◌, List, [], ◌∷◌, ltb, ◌==◌,
  ltb→lt, if◌then◌else◌, Bool-cases, ok, ◌≡◌, ◌≢◌, inl, inr, refl, arith, subst, ◌∙◌, ap, sym,
}
use pipelined_core.Lockstep.Error.{
  Checked, Error, bad_event, no_retirement, no_trap, extra_retirement,
}
use pipelined_core.Lockstep.Event.{dut_effects, Retire, Event, cycle, done, unknown, retire}
use pipelined_core.Lockstep.Compare.{Difference, differences}
use pipelined_core.Lockstep.Reference.{Reference, parse_spike_step}
use pipelined_core.Lockstep.Exec.{pure, lift, exec_if, exec_raise_if, ◌>>=◌, ◌>>◌, bind-eq-ok}
use pipelined_core.Common.{>>=-eq-ok}
use pipelined_core.Lockstep.Spike.{
  Processes, Action, dut_event, spike_step, spike_registers, spike_csrs, align_spike,
}
use pipelined_core.Lockstep.State.{Args, Locals, initial, inject_fault, assign_regs, record_event}
use pipelined_core.Lockstep.Run.{
  Ended, matched, diverged, stuck, Next, again, stop, report, judged, compare_event, on_event,
  go_on, one_round, loop, enough, is_done, closing, after_loop, run_body, run,
}

-- What a round that goes on has done to the counters.
pub data Progress (args : Args) (l l' : Locals) : Type 0 where
  waited :
      l'.retired ≡ l.retired
      → l'.cycles_without_retire ≡ l.cycles_without_retire + 1
      → l'.cycles_without_retire ≤ args.watchdog
      → Progress args l l'
  counted : l'.retired ≡ l.retired + 1 → l'.cycles_without_retire ≡ 0 → Progress args l l'

-- The counters after a matched event.
pub record_event-counts :
    (l : Locals) (event : Retire) {l' : Locals}
    → record_event l event ≡ ok l'
    → (l'.retired ≡ l.retired + 1) × (l'.cycles_without_retire ≡ 0)
unfolding record_event
record_event-counts l event h =
    let (dut, e1, h1) = >>=-eq-ok (dut_effects event) _ h in
    let (regs, e2, h2) = >>=-eq-ok (assign_regs l.dut_regs dut.regs) _ h1 in (cc, cc)

-- A round stops for a reason of the code's, or makes progress.
abbrev Goes : Args → Locals → Next → Type 0
Goes args l (again l') = Progress args l l'
Goes args l (stop e) = e ≢ stuck

ok-Goes :
    (args : Args) (l : Locals) (m n : Next)
    → ◌≡◌ {A = Checked Next} (ok m) (ok n)
    → Goes args l m
    → Goes args l n
ok-Goes args l m n e g = let same : m ≡ n = cc in subst (Goes args l) same g

pub not_raised :
    {W : Type 0} (b : Bool) (x : Error) (w : W) {u : Unit {0}}
    → (exec_raise_if b x w).0 ≡ ok u
    → b ≡ false
not_raised true x w h = cc
not_raised false x w h = refl

pub ltb-false : (a b : ℕ) → ltb a b ≡ false → b ≤ a
ltb-false a b h = ground arith

one_less :
    (limit n k rest : ℕ) → n < limit → rest < k → (limit - (n + 1)) * k + rest < (limit - n) * k
one_less limit n k rest h r =
    let e : limit - n ≡ (limit - (n + 1)) + 1 = omega arith in rw e (omega arith)

module _ (p : Processes) where
  report-Goes :
      (args : Args) (l : Locals) (event : Retire) (r : Reference) (diff : List Difference)
      (w : p.World) {n : Next}
      → (report p l event r diff w).0 ≡ ok n
      → Goes args l n
  unfolding report
  report-Goes args l event r diff w h =
      let (regs, e1, h1) = bind-eq-ok (spike_registers p) _ w h in
      let (csrs, e2, h2) = bind-eq-ok (spike_csrs p) _ _ h1 in ok-Goes args l _ _ h2 (λ e. cc)

  judged-Goes :
      (args : Args) (l : Locals) (event : Retire) (r : Reference) (diff : List Difference)
      (w : p.World) {n : Next}
      → (judged p args l event r diff w).0 ≡ ok n
      → Goes args l n
  judged-Goes args l event r (d ∷ ds) w h = report-Goes args l event r (d ∷ ds) w h
  judged-Goes args l event r [] w h =
      let (l', e1, h1) = bind-eq-ok (lift (record_event l event)) _ w h in
      let (same, zeroed) = record_event-counts l event e1 in
      elim (Bool-cases (args.until_trap && event.trap)) [
        | inl last ↦
            ok-Goes args l _ _
              (ap (λ b. ok (if b then stop (matched l') else again l')) (sym last) ∙ h1) (λ e. cc)
        | inr more ↦
            ok-Goes args l _ _
              (ap (λ b. ok (if b then stop (matched l') else again l')) (sym more) ∙ h1)
              (counted same zeroed)
      ]

  compare_event-Goes :
      (args : Args) (l : Locals) (event : Retire) (w : p.World) {n : Next}
      → (compare_event p args l event w).0 ≡ ok n
      → Goes args l n
  unfolding compare_event
  compare_event-Goes args l event w h =
      let (u, e0, h0) =
        bind-eq-ok (exec_raise_if (not (event.order == l.retired)) bad_event) _ w h in
      let (given, e1, h1) = bind-eq-ok (lift (inject_fault args.inject l.retired event)) _ _ h0 in
      let (lines, e2, h2) = bind-eq-ok (spike_step p) _ _ h1 in
      let (r, e3, h3) = bind-eq-ok (lift (parse_spike_step lines)) _ _ h2 in
      let (diff, e4, h4) = bind-eq-ok (lift (differences given r)) _ _ h3 in
      judged-Goes args l given r diff _ h4

  on_event-Goes :
      (args : Args) (l : Locals) (event : Event) (w : p.World) {n : Next}
      → (on_event p args l event w).0 ≡ ok n
      → Goes args l n
  on_event-Goes args l cycle w h =
      let (u, e, h1) =
        bind-eq-ok
          (exec_raise_if (ltb args.watchdog (l.cycles_without_retire + 1))
            (no_retirement args.watchdog))
          _ w h in
      ok-Goes args l _ _ h1 (waited refl refl (ltb-false _ _ (not_raised _ _ w e)))
  on_event-Goes args l done w h = cc
  on_event-Goes args l unknown w h = cc
  on_event-Goes args l (retire event) w h = compare_event-Goes args l event w h

  one_round-Goes :
      (args : Args) (l : Locals) (w : p.World) {n : Next}
      → (one_round p args l w).0 ≡ ok n
      → Goes args l n
  unfolding one_round
  one_round-Goes args l w h =
      let (event, e, h1) = bind-eq-ok (dut_event p) _ w h in on_event-Goes args l event _ h1

  abbrev pub fuel_for : Args → Locals → ℕ
  fuel_for args l =
      (args.limit - l.retired) * (args.watchdog + 1) + (args.watchdog - l.cycles_without_retire)

  pub Progress-fuel :
      (args : Args) (l l' : Locals)
      → Progress args l l'
      → l.retired < args.limit
      → fuel_for args l' < fuel_for args l
  Progress-fuel args l l' (waited r c b) h = rw r (omega (arith, b, c))
  Progress-fuel args l l' (counted r c) h =
      rw (r, c)
        (omega (
          arith,
          one_less args.limit l.retired (args.watchdog + 1) (args.watchdog - 0) h (omega arith),
        ))

  go_on-ne-stuck :
      (rest : Locals → Action p Ended) (args : Args) (l : Locals) (n : Next) (w : p.World)
      → Goes args l n
      → ((l' : Locals) → Progress args l l' → (rest l' w).0 ≢ ok stuck)
      → (go_on p rest n w).0 ≢ ok stuck
  go_on-ne-stuck rest args l (again l') w g ih h = ih l' g h
  go_on-ne-stuck rest args l (stop e) w g ih h = g (cc)

  loop-ne-stuck :
      (fuel : ℕ) (args : Args) (l : Locals) (w : p.World)
      → fuel_for args l < fuel
      → (loop p fuel args l w).0 ≢ ok stuck
  unfolding loop
  loop-ne-stuck zero args l w enough h = absurd (omega arith)
  loop-ne-stuck (suc fuel) args l w enough h = elim (Bool-cases (ltb l.retired args.limit)) [
    | inl more ↦
        let (n, e, h1) = bind-eq-ok (one_round p args l) _ w (rw more at h) in
        go_on-ne-stuck (loop p fuel args) args l n _ (one_round-Goes args l w e)
          (λ l' progress.
            loop-ne-stuck fuel args l' _
              (omega (arith, Progress-fuel args l l' progress (ltb→lt _ _ more))))
          h1
    | inr over ↦ let h1 = rw over at h in cc h1
  ]

  -- What follows the loop keeps a match, and accepts it only with the one trap that was asked for.
  pub after_loop-matched :
      (args : Args) (l : Locals) (w : p.World) {e : Ended}
      → (after_loop p args (matched l) w).0 ≡ ok e
      → (e ≡ matched l) × ((args.until_trap && not (l.traps == 1)) ≡ false)
  unfolding after_loop
  after_loop-matched args l w h =
      let (u, e1, h1) =
        bind-eq-ok (exec_raise_if (args.until_trap && not (l.traps == 1)) (no_trap args.limit)) _ w
          h in
      (ends args.require_done _ h1, not_raised _ _ w e1)
    where
      ends :
          (b : Bool) (v : p.World) {e : Ended}
          → (exec_if b
              (dut_event p >>= λ event.
                exec_raise_if (not (is_done p event)) (extra_retirement args.limit)
                >> pure (matched l))
              (pure (matched l))
              v).0
            ≡ ok e
          → e ≡ matched l
      ends true v h =
          let (event, e2, h2) = bind-eq-ok (dut_event p) _ v h in
          let (u, e3, h3) =
            bind-eq-ok (exec_raise_if (not (is_done p event)) (extra_retirement args.limit)) _ _
              h2 in
          cc
      ends false v h = cc

  after_loop-ne-stuck :
      (args : Args) (e : Ended) (w : p.World) → e ≢ stuck → (after_loop p args e w).0 ≢ ok stuck
  after_loop-ne-stuck args (matched l) w ne h = let (same, _) = after_loop-matched args l w h in cc
  after_loop-ne-stuck args (diverged d) w ne h = unfold after_loop in cc h
  after_loop-ne-stuck args stuck w ne h = ne refl

  closing-eq-ok :
      (r : Checked Ended) (clean : Bool) {e : Ended} → closing p r clean ≡ ok e → r ≡ ok e
  closing-eq-ok (ok (matched l)) true h = h
  closing-eq-ok (ok (matched l)) false h = cc
  closing-eq-ok r clean h = h

  -- What `run` returns is what follows the loop, which starts where the alignment has ended.
  pub run-eq-ok :
      (args : Args) (w : p.World) {e : Ended}
      → (run p args w).0 ≡ ok e
      → let v = (align_spike p args.entry w).1 in
        (skipped : ℕ) × (end : Ended) × ((align_spike p args.entry w).0 ≡ ok skipped)
        × ((loop p (enough p args) args initial v).0 ≡ ok end)
        × ((after_loop p args end (loop p (enough p args) args initial v).1).0 ≡ ok e)
  unfolding run run_body
  run-eq-ok args w h =
      let body = closing-eq-ok _ _ h in
      let (skipped, e1, h1) = bind-eq-ok (align_spike p args.entry) _ w body in
      let (end, e2, h2) = bind-eq-ok (loop p (enough p args) args initial) _ _ h1 in
      (skipped, end, e1, e2, h2)

  pub enough-lt : (args : Args) → fuel_for args initial < enough p args
  enough-lt args =
      let none_yet : args.limit - 0 ≡ args.limit = omega arith in
      omega (arith, ap (λ (t : ℕ). t * (args.watchdog + 1)) none_yet)

  -- `run` ends, whatever the two processes do: the fuel that the model gives the loop suffices.
  pub run-ne-stuck : (args : Args) (w : p.World) → (run p args w).0 ≢ ok stuck
  run-ne-stuck args w h =
      let (skipped, end, _, e, h1) = run-eq-ok args w h in
      after_loop-ne-stuck args end _
        (λ s. loop-ne-stuck (enough p args) args initial _ (enough-lt args) (e ∙ ap ok s)) h1
