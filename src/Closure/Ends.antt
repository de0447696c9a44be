-- ===== src/Closure/Ends.antt =====
-- Rules for the outcomes of `execute`.
use pipelined_core.Common.{
  ℕ, Bool, true, false, Option, none, some, List, Result, ok, err, or_raise, Bool-cases,
  Option-cases, Result-cases, ◌≡◌, ◌⊎◌, inl, inr, refl,
}
use pipelined_core.Common.Exec.{◌>>=◌, Post}
use pipelined_core.Common.Text.{Text}
use pipelined_core.Coverage.Model.{cross_group}
use pipelined_core.Coverage.Report.{Group, Report, find_group, summarize, sort_names}
use pipelined_core.Closure.Record.{
  Error, coverage_error, no_cross_group, bad_target, excluded_target, tool_failed, no_verdict,
  stimulus_differs, case_failed, Tools, Case, failed, passed, target_parts, differs, without,
  checked_events, uncovered_of, unhit,
}
use pipelined_core.Closure.{State, record_case, judge, execute}

-- Every error but that of a comparison that failed.
abbrev pub IsOther : Error → Type 0
IsOther (case_failed seed) = ⊥
IsOther _ = Unit

-- A case of this seed that has passed.
abbrev pub IsPassed : ℕ → Case → Type 0
IsPassed seed (failed n target) = ⊥
IsPassed seed (passed n target bins hit hash events) = seed ≡ n

or_raise-cases :
    {A : Type 0} (o : Option A) (e : Error)
    → ◌≡◌ {A = Result Error A} (or_raise o e) (err e)
      ⊎ ((a : A) × (◌≡◌ {A = Result Error A} (or_raise o e) (ok a)))
or_raise-cases none e = inl refl
or_raise-cases (some a) e = inr (a, refl)

checked_events-cases :
    (log : Text) → (checked_events log ≡ err no_verdict) ⊎ ((n : ℕ) × (checked_events log ≡ ok n))
unfolding checked_events
checked_events-cases log = or_raise-cases _ no_verdict

uncovered_of-cases :
    (o : Option Group)
    → (uncovered_of o ≡ err no_cross_group) ⊎ ((bins : List Text) × (uncovered_of o ≡ ok bins))
uncovered_of-cases none = inl refl
uncovered_of-cases (some g) = inr (g.uncovered, refl)

pub unhit-cases :
    (report : Report)
    → (unhit report ≡ err no_cross_group) ⊎ ((bins : List Text) × (unhit report ≡ ok bins))
unfolding unhit
unhit-cases report = uncovered_of-cases (find_group cross_group report.groups)

target_parts-cases :
    (target : Text)
    → (target_parts target ≡ err bad_target)
      ⊎ ((p : Text × (Text × Text)) × (target_parts target ≡ ok p))
unfolding target_parts
target_parts-cases target = or_raise-cases _ bad_target

module _ (t : Tools) where
  module _ (R : Error → State t → Type 0) where
    module _ (Q : List Text → State t → Type 0) (seed : ℕ) (target : Text) where
      -- What `judge` makes of a run that agreed.
      abbrev pub Judged : State t → Type 0
      Judged s =
          (updated : Report) (gained after : List Text) (hash : Text) (events : ℕ)
          → summarize t.model t.model (t.files s.world) ≡ ok updated
          → unhit updated ≡ ok after
          → Q after
              (record_case t (passed seed target gained updated.cross_hit hash events) updated s)

      judge-Post :
          (hash : Text) (agreed : Bool) (s : State t)
          → ((e : Error) → IsOther e → R e s)
          → R (case_failed seed) (record_case t (failed seed target) s.report s)
          → Judged s
          → Post Q R (judge t seed target hash agreed s)
      unfolding judge ◌>>=◌
      judge-Post hash false s kept fails passes = fails
      judge-Post hash true s kept fails passes =
          elim (Result-cases (summarize t.model t.model (t.files s.world))) [
            | inl (e, h) ↦ rw (judge, h) (kept (coverage_error e) tt)
            | inr (updated, h) ↦ elim (unhit-cases s.report) [
              | inl e ↦ rw (judge, h, e) (kept no_cross_group tt)
              | inr (before, e) ↦ elim (unhit-cases updated) [
                | inl e' ↦ rw (judge, h, e, e') (kept no_cross_group tt)
                | inr (after, e') ↦ elim (checked_events-cases (t.log s.world)) [
                  | inl e'' ↦ rw (judge, h, e, e', e'') (kept no_verdict tt)
                  | inr (events, e'') ↦
                      rw (judge, h, e, e', e'')
                        (passes updated (sort_names (without before after)) after hash events h e')
                ]
              ]
            ]
          ]

      -- The rule for `execute`: an error that is raised before the run leaves all but the world.
      pub execute-Post :
          (expected : Option Text) (s : State t)
          → ((e : Error) → IsOther e → (w : t.World) → R e (record s { world = w }))
          → ((w : t.World)
              → R
                  (case_failed seed)
                  (record_case t (failed seed target) s.report (record s { world = w })))
          → ((w : t.World) → Judged (record s { world = w }))
          → Post Q R (execute t seed target expected s)
      unfolding execute ◌>>=◌
      execute-Post expected s kept fails passes = elim (target_parts-cases target) [
        | inl h ↦ rw (execute, h) (kept bad_target tt s.world)
        | inr (p, h) ↦ elim (Option-cases (t.generate seed p.0 p.1.0 p.1.1)) [
          | inl g ↦ rw (execute, h, g) (kept excluded_target tt s.world)
          | inr (source, g) ↦ elim (Bool-cases (differs expected (t.sha256 source))) [
            | inl d ↦ rw (execute, h, g, d) (kept (stimulus_differs seed) tt s.world)
            | inr d ↦
                let w1 = (t.assemble source s.world).1 in
                let w2 = (t.extract w1).1 in
                let w3 = (t.lockstep w2).1 in
                elim (Bool-cases (t.assemble source s.world).0) [
                  | inr a ↦ rw (execute, h, g, d, a) (kept tool_failed tt w1)
                  | inl a ↦ elim (Bool-cases (t.extract w1).0) [
                    | inr x ↦ rw (execute, h, g, d, a, x) (kept tool_failed tt w2)
                    | inl x ↦
                        rw (execute, h, g, d, a, x)
                          (judge-Post (t.sha256 source) (t.lockstep w2).0 (record s { world = w3 })
                            (λ e other. kept e other w3) (fails w3) (passes w3))
                  ]
                ]
          ]
        ]
      ]
