-- ===== src/Lockstep/Run/Passes.antt =====
-- A run that passes, as a derivation over what the two processes did.
use pipelined_core.Common.{
  ok_inj, ℕ, zero, suc, ◌+◌, ◌≤◌, Bool, true, false, not, ◌&&◌, List, [], ◌∷◌, ltb, ◌==◌, ==_iff,
  Bool-cases, ok, err, if◌then◌else◌, ◌≡◌, inl, inr, sym, subst, ap, ◌∙◌, arith,
}
use pipelined_core.Common.Text.{Text}
use pipelined_core.Lockstep.Error.{Checked, bad_event, no_retirement}
use pipelined_core.Lockstep.Event.{Retire, Event, cycle, done, unknown, retire}
use pipelined_core.Lockstep.Compare.{Difference, differences}
use pipelined_core.Lockstep.Compare.Agreement.{Agrees, differences_iff}
use pipelined_core.Lockstep.Reference.{Reference, parse_spike_step}
use pipelined_core.Lockstep.Exec.{lift, exec_raise_if, bind-post, bind-eq-ok}
use pipelined_core.Lockstep.Spike.{
  Processes, Action, dut_event, spike_step, spike_registers, spike_csrs,
}
use pipelined_core.Lockstep.State.{Args, Locals, inject_fault, record_event}
use pipelined_core.Lockstep.Run.{
  Ended, matched, Next, again, stop, report, judged, compare_event, on_event, one_round, go_on,
  loop,
}
use pipelined_core.Lockstep.Run.Terminates.{not_raised, ltb-false}

-- An event of the DUT, as compared, and the step of Spike that it agrees with.
pub record Compared : Type 0 where
  pub event : Retire
  pub lines : List Text
  pub reference : Reference
  pub parsed : parse_spike_step lines ≡ ok reference
  pub agrees : Agrees event reference

-- From the variables `l` and the processes in `w` the loop reaches `end` by the comparisons listed,
-- one Spike step for each, in order, and none for a cycle without a retirement.
pub data Passes (p : Processes) (args : Args) (end : Locals)
    : Locals → p.World → List Compared → Type 0 where
  full : {l : Locals} {w : p.World} → args.limit ≤ l.retired → end ≡ l → Passes p args end l w []
  idle :
      {l : Locals} {w : p.World} {cs : List Compared}
      → ltb l.retired args.limit ≡ true
      → (dut_event p w).0 ≡ ok cycle
      → l.cycles_without_retire + 1 ≤ args.watchdog
      → Passes p args end
          (record l { cycles_without_retire = l.cycles_without_retire + 1 })
          (dut_event p w).1
          cs
      → Passes p args end l w cs
  next :
      {l l' : Locals} {w : p.World} {cs : List Compared} {given : Retire} (c : Compared)
      → ltb l.retired args.limit ≡ true
      → (dut_event p w).0 ≡ ok (retire given)
      → given.order ≡ l.retired
      → inject_fault args.inject l.retired given ≡ ok c.event
      → (spike_step p (dut_event p w).1).0 ≡ ok c.lines
      → record_event l c.event ≡ ok l'
      → (args.until_trap && c.event.trap) ≡ false
      → Passes p args end l' (spike_step p (dut_event p w).1).1 cs
      → Passes p args end l w (c ∷ cs)
  last :
      {l : Locals} {w : p.World} {given : Retire} (c : Compared)
      → ltb l.retired args.limit ≡ true
      → (dut_event p w).0 ≡ ok (retire given)
      → given.order ≡ l.retired
      → inject_fault args.inject l.retired given ≡ ok c.event
      → (spike_step p (dut_event p w).1).0 ≡ ok c.lines
      → record_event l c.event ≡ ok end
      → (args.until_trap && c.event.trap) ≡ true
      → Passes p args end l w (c ∷ [])

pub matched_inj : {l k : Locals} → matched l ≡ matched k → l ≡ k
matched_inj h = cc

not-false : (b : Bool) → not b ≡ false → b ≡ true
not-false b h = ground arith

module _ (p : Processes) (args : Args) (end : Locals) where
  -- What a round's result is worth: a derivation for the rest gives one for the whole.
  abbrev Extends : Locals → p.World → Checked Next → p.World → Type 0
  Extends l w (ok (again l')) v =
      (cs : List Compared)
      → Passes p args end l' v cs
      → (cs' : List Compared) × Passes p args end l w cs'
  Extends l w (ok (stop e)) v = e ≡ matched end → (cs : List Compared) × Passes p args end l w cs
  Extends l w (err x) v = Unit

  module _ (l : Locals) (w : p.World) where
    report-Extends :
        (event : Retire) (r : Reference) (diff : List Difference) (v : p.World)
        → Extends l w (report p l event r diff v).0 (report p l event r diff v).1
    unfolding report
    report-Extends event r diff v =
        bind-post (Extends l w) (λ _ _. tt) (spike_registers p) _ v
          λ regs _. bind-post (Extends l w) (λ _ _. tt) (spike_csrs p) _ _ λ csrs _. λ e. cc

    module _ (more : ltb l.retired args.limit ≡ true) where
      recorded-Extends :
          (given : Retire) (c : Compared)
          → (dut_event p w).0 ≡ ok (retire given)
          → given.order ≡ l.retired
          → inject_fault args.inject l.retired given ≡ ok c.event
          → (spike_step p (dut_event p w).1).0 ≡ ok c.lines
          → (l' : Locals) → record_event l c.event ≡ ok l'
          → Extends l w
              (ok (if args.until_trap && c.event.trap then stop (matched l') else again l'))
              (spike_step p (dut_event p w).1).1
      recorded-Extends given c got order injected stepped l' recorded =
          elim (Bool-cases (args.until_trap && c.event.trap)) [
            | inl is_last ↦ rw is_last (λ e.
                let same : end ≡ l' = cc in
                (
                  c ∷ [],
                  last c more got order injected stepped (recorded ∙ ap ok (sym same)) is_last,
                ))
            | inr not_last ↦
                rw not_last (λ cs rest.
                  (c ∷ cs, next c more got order injected stepped recorded not_last rest))
          ]

      judged-Extends :
          (given event : Retire) (lines : List Text) (r : Reference) (diff : List Difference)
          → (dut_event p w).0 ≡ ok (retire given)
          → given.order ≡ l.retired
          → inject_fault args.inject l.retired given ≡ ok event
          → (spike_step p (dut_event p w).1).0 ≡ ok lines
          → parse_spike_step lines ≡ ok r
          → differences event r ≡ ok diff
          → Extends l w
              (judged p args l event r diff (spike_step p (dut_event p w).1).1).0
              (judged p args l event r diff (spike_step p (dut_event p w).1).1).1
      judged-Extends given event lines r (d ∷ ds) got order injected stepped parsed compared =
          report-Extends event r (d ∷ ds) _
      judged-Extends given event lines r [] got order injected stepped parsed compared =
          bind-post (Extends l w) (λ _ _. tt) (lift (record_event l event)) _ _
            (recorded-Extends given
              (record {
                event = event;
                lines = lines;
                reference = r;
                parsed = parsed;
                agrees = (differences_iff event r).0 compared;
              })
              got order injected stepped)

      compare_event-Extends :
          (given : Retire)
          → (dut_event p w).0 ≡ ok (retire given)
          → Extends l w
              (compare_event p args l given (dut_event p w).1).0
              (compare_event p args l given (dut_event p w).1).1
      unfolding compare_event
      compare_event-Extends given got =
          let ordered = exec_raise_if (not (given.order == l.retired)) bad_event in
          let injected = lift (inject_fault args.inject l.retired given) in
          bind-post (Extends l w) (λ _ _. tt) ordered _ _
            λ u o.
              bind-post (Extends l w) (λ _ _. tt) injected _ _
                λ event i.
                  bind-post (Extends l w) (λ _ _. tt) (spike_step p) _ _
                    λ lines s.
                      bind-post (Extends l w) (λ _ _. tt) (lift (parse_spike_step lines)) _ _
                        λ r q.
                          bind-post (Extends l w) (λ _ _. tt) (lift (differences event r)) _ _
                            λ diff d.
                              judged-Extends given event lines r diff got
                                ((==_iff _ _).0 (not-false _ (not_raised _ bad_event w o))) i s q d

      on_event-Extends :
          (event : Event)
          → (dut_event p w).0 ≡ ok event
          → Extends l w
              (on_event p args l event (dut_event p w).1).0
              (on_event p args l event (dut_event p w).1).1
      on_event-Extends cycle got =
          bind-post (Extends l w) (λ _ _. tt)
            (exec_raise_if (ltb args.watchdog (l.cycles_without_retire + 1))
              (no_retirement args.watchdog))
            _ _
            λ u o cs rest. (
              cs,
              idle more got (ltb-false _ _ (not_raised _ (no_retirement args.watchdog) w o)) rest,
            )
      on_event-Extends done got = tt
      on_event-Extends unknown got = tt
      on_event-Extends (retire given) got = compare_event-Extends given got

      one_round-Extends : Extends l w (one_round p args l w).0 (one_round p args l w).1
      unfolding one_round
      one_round-Extends =
          bind-post (Extends l w) (λ _ _. tt) (dut_event p) _ w
            λ event got. on_event-Extends event got

  go_on-Passes :
      (rest : Locals → Action p Ended) (l : Locals) (w v : p.World) (n : Next)
      → Extends l w (ok n) v
      → (go_on p rest n v).0 ≡ ok (matched end)
      → ((l' : Locals)
          → (rest l' v).0 ≡ ok (matched end)
          → (cs : List Compared) × Passes p args end l' v cs)
      → (cs : List Compared) × Passes p args end l w cs
  go_on-Passes rest l w v (again l') x h ih = let (cs, d) = ih l' h in x cs d
  go_on-Passes rest l w v (stop e) x h ih = x (ok_inj h)

  -- A loop that ends in a match has made the comparisons of a derivation.
  pub loop-Passes :
      (fuel : ℕ) (l : Locals) (w : p.World)
      → (loop p fuel args l w).0 ≡ ok (matched end)
      → (cs : List Compared) × Passes p args end l w cs
  unfolding loop
  loop-Passes zero l w h = cc
  loop-Passes (suc fuel) l w h = elim (Bool-cases (ltb l.retired args.limit)) [
    | inl more ↦
        let (n, e, h1) = bind-eq-ok (one_round p args l) _ w (rw more at h) in
        go_on-Passes (loop p fuel args) l w _ n
          (subst (λ r. Extends l w r (one_round p args l w).1) e (one_round-Extends l w more)) h1
          (λ l' g. loop-Passes fuel l' _ g)
    | inr over ↦ ([], full (ltb-false _ _ over) (let g = rw over at h in cc g))
  ]
