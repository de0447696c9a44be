-- ===== src/Lockstep/Run/Verdict.antt =====
-- What exit status 0 of scripts/lockstep.py says.
use pipelined_core.Common.{
  ℕ, ◌+◌, ◌≤◌, Bool, true, false, not, ◌&&◌, ◌||◌, List, [], ◌∷◌, length, ltb→lt, ◌==◌, Bool-cases,
  ok, err, >>=-eq-ok, ◌≡◌, inl, inr, refl, ap, subst, ◌∙◌, sym, arith,
}
use pipelined_core.Common.Text.{Text, codes}
use pipelined_core.Lockstep.Error.{Checked, is_reported}
use pipelined_core.Lockstep.Event.{Retire, dut_effects}
use pipelined_core.Lockstep.Spike.{Processes, align_spike}
use pipelined_core.Lockstep.State.{
  Args, Locals, initial, flip, flip_if, inject_fault, targets, with_rd_data, with_mem_wdata,
  with_cause, assign_regs, record_event, bool_int,
}
use pipelined_core.Lockstep.Run.{
  Ended, matched, diverged, stuck, after_loop, enough, status, with_done, run, main,
}
use pipelined_core.Lockstep.Run.Terminates.{record_event-counts, after_loop-matched, run-eq-ok}
use pipelined_core.Lockstep.Run.Passes.{
  Compared, Passes, full, idle, next, last, matched_inj, loop-Passes,
}

abbrev pub count_traps : List Compared → ℕ
count_traps [] = 0
count_traps (c ∷ cs) = bool_int c.event.trap + count_traps cs

-- The events' "order" entries count up from `n`.
abbrev pub InOrder : ℕ → List Compared → Type 0
InOrder n [] = Unit
InOrder n (c ∷ cs) = (c.event.order ≡ n) × InOrder (n + 1) cs

flip_if-order :
    (b : Bool) (put : Retire → Text → Retire) (text : Text) (e : Retire) {e' : Retire}
    → ((t : Text) → (put e t).order ≡ e.order)
    → flip_if b put text e ≡ ok e'
    → e'.order ≡ e.order
unfolding flip_if
flip_if-order false put text e keeps h = cc
flip_if-order true put text e keeps h = let (t, _, h1) = >>=-eq-ok (flip text) _ h in cc (keeps t)

order-inject_fault :
    (inject : Text) (n : ℕ) (e : Retire) {e' : Retire}
    → inject_fault inject n e ≡ ok e'
    → e'.order ≡ e.order
unfolding inject_fault
order-inject_fault inject n e h =
    let (e1, h1, k1) =
      >>=-eq-ok (flip_if (targets inject (codes "rd@") n) with_rd_data e.rd_data e) _ h in
    let (e2, h2, k2) =
      >>=-eq-ok (flip_if (targets inject (codes "store@") n) with_mem_wdata e1.mem_wdata e1) _ k1 in
    flip_if-order _ with_cause _ e2 (λ t. refl) k2
    ∙ flip_if-order _ with_mem_wdata _ e1 (λ t. refl) h2
    ∙ flip_if-order _ with_rd_data _ e (λ t. refl) h1

record_event-traps :
    (l : Locals) (event : Retire) {l' : Locals}
    → record_event l event ≡ ok l'
    → l'.traps ≡ l.traps + bool_int event.trap
unfolding record_event
record_event-traps l event h =
    let (dut, e1, h1) = >>=-eq-ok (dut_effects event) _ h in
    let (regs, e2, h2) = >>=-eq-ok (assign_regs l.dut_regs dut.regs) _ h1 in cc

module _ {p : Processes} {args : Args} {end : Locals} where
  Passes-retired :
      {l : Locals} {w : p.World} {cs : List Compared}
      → Passes p args end l w cs
      → end.retired ≡ l.retired + length cs
  Passes-retired (full b e) = rw e (omega arith)
  Passes-retired (idle m g b d) = Passes-retired d
  Passes-retired (next {l} c m g o i s r n d) =
      omega (arith, Passes-retired d, (record_event-counts l c.event r).0)
  Passes-retired (last {l} c m g o i s r n) = omega (arith, (record_event-counts l c.event r).0)

  pub Passes-traps :
      {l : Locals} {w : p.World} {cs : List Compared}
      → Passes p args end l w cs
      → end.traps ≡ l.traps + count_traps cs
  Passes-traps (full b e) = rw e (omega arith)
  Passes-traps (idle m g b d) = Passes-traps d
  Passes-traps (next {l} c m g o i s r n d) =
      omega (arith, Passes-traps d, record_event-traps l c.event r)
  Passes-traps (last {l} c m g o i s r n) = omega (arith, record_event-traps l c.event r)

  Passes-InOrder :
      {l : Locals} {w : p.World} {cs : List Compared}
      → Passes p args end l w cs
      → InOrder l.retired cs
  Passes-InOrder (full b e) = tt
  Passes-InOrder (idle m g b d) = Passes-InOrder d
  Passes-InOrder (next {l} {l'} {cs = cs} {given} c m g o i s r n d) = (
    order-inject_fault args.inject l.retired given i ∙ o,
    subst (λ k. InOrder k cs) (record_event-counts l c.event r).0 (Passes-InOrder d),
  )
  Passes-InOrder (last {l} {given = given} c m g o i s r n) =
      (order-inject_fault args.inject l.retired given i ∙ o, tt)

  Passes-limit :
      {l : Locals} {w : p.World} {cs : List Compared}
      → args.until_trap ≡ false
      → l.retired ≤ args.limit
      → Passes p args end l w cs
      → end.retired ≡ args.limit
  Passes-limit u b (full f e) = rw e (omega arith)
  Passes-limit u b (idle m g k d) = Passes-limit u b d
  Passes-limit u b (next {l} c m g o i s r n d) =
      Passes-limit u (omega (arith, ltb→lt _ _ m, (record_event-counts l c.event r).0)) d
  Passes-limit u b (last c m g o i s r n) = let n' = rw u at n in cc n'

-- What a run from `w` on that passes with the variables `l` has done.
pub record Verdict (p : Processes) (args : Args) (w : p.World) (l : Locals) : Type 0 where
  pub ran : (run p args w).0 ≡ ok (matched l)
  pub skipped : ℕ
  pub aligned : (align_spike p args.entry w).0 ≡ ok skipped
  pub compared : List Compared
  pub passes : Passes p args l initial (align_spike p args.entry w).1 compared
  pub retired_is : l.retired ≡ length compared
  pub traps_is : l.traps ≡ count_traps compared
  pub in_order : InOrder 0 compared
  pub all_of_limit : args.until_trap ≡ false → length compared ≡ args.limit
  pub one_trap : args.until_trap ≡ true → count_traps compared ≡ 1

one_trap_lem : (u : Bool) (n : ℕ) → (u && not (n == 1)) ≡ false → u ≡ true → n ≡ 1
one_trap_lem u n h e = ground arith

module _ (p : Processes) (args : Args) where
  pub matched_before :
      (end : Ended) (w : p.World) {l : Locals}
      → (after_loop p args end w).0 ≡ ok (matched l)
      → (end ≡ matched l) × ((args.until_trap && not (l.traps == 1)) ≡ false)
  matched_before (matched k) w h =
      let (e, u) = after_loop-matched p args k w h in
      (sym e, subst (λ j. (args.until_trap && not (j.traps == 1)) ≡ false) (matched_inj (sym e)) u)
  matched_before (diverged d) w h = unfold after_loop in cc h
  matched_before stuck w h = unfold after_loop in cc h

  -- A run that reports a pass has, after the alignment, compared as many events as it reports, with
  -- one Spike step for each, in the order of their numbers from 0, all in agreement; these are
  -- `limit` events, or with `--until-trap` exactly one of them is a trap.
  pub run-Verdict :
      (w : p.World) {l : Locals} → (run p args w).0 ≡ ok (matched l) → Verdict p args w l
  run-Verdict w {l} h =
      let (skipped, end, aligned, looped, closed) = run-eq-ok p args w h in
      let (same, trapped) = matched_before end _ closed in
      let (cs, d) = loop-Passes p args l (enough p args) initial _ (looped ∙ ap ok same) in
      record {
        ran = h;
        skipped = skipped;
        aligned = aligned;
        compared = cs;
        passes = d;
        retired_is = omega (arith, Passes-retired d);
        traps_is = omega (arith, Passes-traps d);
        in_order = Passes-InOrder d;
        all_of_limit = λ e. omega (arith, Passes-limit e (omega arith) d, Passes-retired d);
        one_trap =
            λ e. omega (arith, one_trap_lem args.until_trap l.traps trapped e, Passes-traps d);
      }

pub status-zero : (r : Checked Ended) → status r ≡ 0 → (l : Locals) × (r ≡ ok (matched l))
unfolding is_reported
status-zero (ok (matched l)) h = (l, refl)
status-zero (ok (diverged d)) h = absurd (omega arith)
status-zero (ok stuck) h = absurd (omega arith)
status-zero (err e) h = absurd (ground arith)

-- Where `main` exits with status 0, Spike has been aligned with the entry, and from there on the run
-- has compared as many events as it reports, with one Spike step for each, in the order of their
-- numbers from 0, all in agreement; these are `limit` events, or with `--until-trap` exactly one of
-- them is a trap.
pub main-zero :
    (p : Processes) (args : Args) (w : p.World)
    → main p args w ≡ 0
    → (l : Locals) × Verdict p (with_done args) w l
unfolding main
main-zero p args w h =
    let given = with_done args in
    elim (Bool-cases (given.limit == 0 || given.watchdog == 0)) [
      | inl bad ↦ let g : ◌≡◌ {A = ℕ} 2 0 = rw bad at h in absurd (omega arith)
      | inr fine ↦ let (l, e) = status-zero _ (rw fine at h) in (l, run-Verdict p given w e)
    ]
