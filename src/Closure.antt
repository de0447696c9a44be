-- ===== src/Closure.antt =====
-- scripts/close_cpu_cross_coverage.py: the search for seeds that hit the cross bins which the
-- regression has left out, and its replay. The compiler, the simulator, the generator of the
-- programs and the hash are the parameter `Tools`.
pub mod Record
pub mod Ends
pub mod Seeds
pub mod Cases
pub mod Complete
pub mod Outcome
pub mod Bounded
use pipelined_core.Common.{
  ℕ, zero, suc, ◌+◌, ◌-◌, Bool, true, false, not, ◌&&◌, Option, none, some, List, [], ◌∷◌, ◌++◌,
  length, ltb, ◌==◌, if◌then◌else◌, Result, ok, err, or_raise,
}
use pipelined_core.Common.Int.{ℤ, diff}
use pipelined_core.Common.Exec.{Effect, pure, raise, lift, exec_if, exec_raise_if, ◌>>=◌, ◌>>◌}
use pipelined_core.Common.Text.{Text, codes, text_eq, int_10, is_digit}
use pipelined_core.Common.Text.Lines.{split_at}
use pipelined_core.Coverage.Model
use pipelined_core.Coverage.Model.{cross_group, first_group}
use pipelined_core.Coverage.Records.{among}
use pipelined_core.Coverage.Report.{File, Group, Report, find_group, sort_names, summarize}
use pipelined_core.Regex.{Re, lit, group, plus, ◌⨾◌, search_all}
use pipelined_core.Closure.Record.{
  Error, coverage_error, no_cross_group, bad_target, excluded_target, tool_failed, no_verdict,
  stimulus_differs, case_failed, other_model, remains_unhit, incomplete, Tools, Case, failed,
  passed, Final, Evidence, Frozen, Manifest, target_parts, differs, without, checked_events, unhit,
  as_coverage,
}

module _ (t : Tools) where
  -- The variables of `main`, and what `args.output` holds.
  pub record State : Type 0 where
    pub world : t.World
    pub report : Report
    pub evidence : Evidence
    pub written : Option Evidence

  abbrev pub Action : Type 0 → Type 0
  Action A = Effect Error State A

  -- A program that is run.
  abbrev tool : (t.World → Bool × t.World) → Action (Unit {0})
  tool f s =
      let (fine, w) = f s.world in exec_raise_if (not fine) tool_failed (record s { world = w })

  abbrev run_lockstep : Action Bool
  run_lockstep s = let (agreed, w) = t.lockstep s.world in (ok agreed, record s { world = w })

  -- `evidence['cases'].append(...)` and the writing of the file.
  abbrev pub with_case : Case → Evidence → Evidence
  with_case c e = record e { cases = e.cases ++ c ∷ [] }

  abbrev pub record_case : Case → Report → State → State
  record_case c report s = record s {
    report = report;
    evidence = with_case c s.evidence;
    written = some (with_case c s.evidence);
  }

  -- The end of `execute`, behind the run of the comparison.
  unfoldable pub judge : ℕ → Text → Text → Bool → Action (List Text)
  unfolding ◌>>=◌
  judge seed target hash true = do
    world ← λ s. (ok s.world, s)
    old ← λ s. (ok s.report, s)
    updated ← lift (as_coverage (summarize t.model t.model (t.files world)))
    before ← lift (unhit old)
    after ← lift (unhit updated)
    events ← lift (checked_events (t.log world))
    _ ← λ s. (
      ok tt,
      record_case
          (passed seed target (sort_names (without before after)) updated.cross_hit hash events)
          updated s,
    )
    pure after
  judge seed target hash false =
      λ s. (err (case_failed seed), record_case (failed seed target) s.report s)

  unfoldable pub execute : ℕ → Text → Option Text → Action (List Text)
  unfolding ◌>>=◌ judge target_parts
  execute seed target expected = do
    parts ← lift (target_parts target)
    source ← lift (or_raise (t.generate seed parts.0 parts.1.0 parts.1.1) excluded_target)
    exec_raise_if (differs expected (t.sha256 source)) (stimulus_differs seed)
    tool (t.assemble source)
    tool t.extract
    agreed ← run_lockstep
    judge seed target (t.sha256 source) agreed

  -- The rounds of `for attempt in range(32)` that are left; the result is the next seed.
  unfoldable pub attempts : ℕ → ℕ → Text → Action ℕ
  unfolding ◌>>=◌ execute
  attempts zero seed target = raise (remains_unhit target)
  attempts (suc left) seed target = do
    after ← execute seed target none
    elim (among target after) [ true ↦ attempts left (seed + 1) target | false ↦ pure (seed + 1) ]

  -- A target of the search, which is skipped unless it is unhit; the result is the next seed.
  abbrev pub search_one : Bool → ℕ → Text → Action ℕ
  search_one true seed target = attempts 32 seed target
  search_one false seed target = pure seed

  unfoldable pub search : List Text → ℕ → Action (Unit {0})
  unfolding ◌>>=◌ attempts
  search [] seed = pure tt
  search (target ∷ targets) seed = do
    old ← λ s. (ok s.report, s)
    now ← lift (unhit old)
    next ← search_one (among target now) seed target
    search targets next

  unfoldable pub replay : List Frozen → Action (Unit {0})
  unfolding ◌>>=◌ execute
  replay [] = pure tt
  replay (case ∷ cases) = do
    _ ← execute case.seed case.target (some case.source_sha256)
    replay cases

  abbrev final_of : Report → Evidence → Report → Final
  final_of baseline e report = record {
    final_cross_hit = report.cross_hit;
    final_percent = (report.hit, report.total);
    scenarios_closed = diff report.cross_hit baseline.cross_hit;
    seed_runs = length e.cases;
  }

  -- What follows the search or the replay.
  unfoldable pub finish : Report → Action (Unit {0})
  unfolding ◌>>=◌
  finish baseline s =
      let e = record s.evidence { final = some (final_of baseline s.evidence s.report) } in
      exec_raise_if (not (s.report.cross_hit == s.report.cross_total)) incomplete
        (record s { evidence = e; written = some e })

  unfoldable pub cases_of : Option Manifest → Report → Action (Unit {0})
  unfolding ◌>>=◌ replay search
  cases_of (some manifest) baseline = do
    exec_raise_if (not (text_eq manifest.model_sha256 (t.sha256 t.model))) other_model
    replay manifest.seeds
  cases_of none baseline = do targets ← lift (unhit baseline); search targets 1000

  abbrev pub begun : t.World → Report → State
  begun w baseline = record {
    world = w;
    report = baseline;
    evidence = record {
      baseline_cross_hit = baseline.cross_hit;
      cross_total = baseline.cross_total;
      baseline_percent = (baseline.hit, baseline.total);
      model_sha256 = t.sha256 t.model;
      cases = [];
      final = none;
    };
    written = none;
  }

  -- `main` behind the baseline.
  unfoldable pub close : Option Manifest → Report → Action (Unit {0})
  unfolding ◌>>=◌ cases_of finish
  close frozen baseline = do cases_of frozen baseline; finish baseline

  -- The outcome, and the state at the end, if there is a baseline.
  unfoldable pub main : Option Manifest → t.World → Result Error (Unit {0}) × Option State
  unfolding close
  main frozen w = elim (summarize t.model t.model (t.files w)) [
    | err e ↦ (err (coverage_error e), none)
    | ok baseline ↦ let (r, s) = close frozen baseline (begun w baseline) in (r, some s)
  ]
