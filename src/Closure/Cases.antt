-- ===== src/Closure/Cases.antt =====
-- The state of scripts/close_cpu_cross_coverage.py between two cases.
use pipelined_core.Common.{ℕ, Option, some, List, [], ◌∷◌, ◌++◌, ◌≡◌, refl}
use pipelined_core.Common.Exec.{Post}
use pipelined_core.Common.Text.{Text}
use pipelined_core.Coverage.Sums.{AddsUp, summarize-AddsUp}
use pipelined_core.Closure.Record.{
  Error, coverage_error, no_cross_group, bad_target, excluded_target, tool_failed, no_verdict,
  stimulus_differs, case_failed, other_model, remains_unhit, incomplete, Tools, Case, failed,
  passed, Frozen,
}
use pipelined_core.Closure.{State, execute}
use pipelined_core.Closure.Ends.{IsOther, execute-Post}

abbrev pub HasPassed : Case → Type 0
HasPassed (failed seed target) = ⊥
HasPassed (passed seed target bins hit hash events) = Unit

abbrev pub AllPassed : List Case → Type 0
AllPassed [] = Unit
AllPassed (c ∷ cs) = HasPassed c × AllPassed cs

AllPassed-append :
    (cs : List Case) (c : Case) → AllPassed cs → HasPassed c → AllPassed (cs ++ c ∷ [])
AllPassed-append [] c all p = (p, tt)
AllPassed-append (b ∷ cs) c all p = (all.0, AllPassed-append cs c all.1 p)

-- Seed and target of a case.
abbrev pub case_key : Case → ℕ × Text
case_key (failed seed target) = (seed, target)
case_key (passed seed target bins hit hash events) = (seed, target)

abbrev pub frozen_key : Frozen → ℕ × Text
frozen_key c = (c.seed, c.target)

abbrev pub case_seed : Case → ℕ
case_seed c = (case_key c).0

module _ {t : Tools} where
  -- What holds between two cases.
  pub record Sound (s : State t) : Type 0 where
    pub passed : AllPassed s.evidence.cases
    pub adds : AddsUp s.report

  -- The evidence of a case that failed: it is the last one, and the file has it.
  pub record LastFailed (seed : ℕ) (s : State t) : Type 0 where
    pub earlier : List Case
    pub target : Text
    pub cases : s.evidence.cases ≡ earlier ++ failed seed target ∷ []
    pub all_passed : AllPassed earlier
    pub saved : s.written ≡ some s.evidence

  abbrev pub Ended : Error → State t → Type 0
  Ended (case_failed seed) s = LastFailed seed s
  Ended _ s = AllPassed s.evidence.cases

  pub Ended-other : (e : Error) (s : State t) → IsOther e → AllPassed s.evidence.cases → Ended e s
  Ended-other (coverage_error e) s o p = p
  Ended-other no_cross_group s o p = p
  Ended-other bad_target s o p = p
  Ended-other excluded_target s o p = p
  Ended-other tool_failed s o p = p
  Ended-other no_verdict s o p = p
  Ended-other (stimulus_differs seed) s o p = p
  Ended-other (case_failed seed) s o p = elim o [ ]
  Ended-other other_model s o p = p
  Ended-other (remains_unhit target) s o p = p
  Ended-other incomplete s o p = p

  -- `T` is what is known of the cases so far.
  module _ (T : List Case → Type 0) where
    abbrev pub Raised : Error → State t → Type 0
    Raised e s = Ended e s × T s.evidence.cases

    pub execute-Sound :
        (seed : ℕ) (target : Text) (expected : Option Text) (s : State t)
        → Sound s
        → T s.evidence.cases
        → ((c : Case) → case_key c ≡ (seed, target) → T (s.evidence.cases ++ c ∷ []))
        → Post
            (λ (left : List Text) s'.
              Sound s'
              × ((c : Case) × (case_key c ≡ (seed, target))
                  × (s'.evidence.cases ≡ s.evidence.cases ++ c ∷ [])))
            Raised
            (execute t seed target expected s)
    execute-Sound seed target expected s sound known more =
        execute-Post t Raised _ seed target expected s
          (λ e other w. (Ended-other e (record s { world = w }) other sound.passed, known))
          (λ w. (
            record {
              earlier = s.evidence.cases;
              target = target;
              cases = refl;
              all_passed = sound.passed;
              saved = refl;
            },
            more (failed seed target) refl,
          ))
          (λ w updated gained after hash events read left. (
            record {
              passed = AllPassed-append s.evidence.cases _ sound.passed tt;
              adds = summarize-AddsUp t.model t.model (t.files w) read;
            },
            (passed seed target gained updated.cross_hit hash events, refl, refl),
          ))
