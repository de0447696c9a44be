-- ===== src/Examples/Closures.antt =====
-- A search, a replay and a failing search for one cross bin.
use pipelined_core.Common.{
  ◌≤◌, ℕ, ◌+◌, Bool, true, false, Option, none, some, List, [], ◌∷◌, ◌++◌, length, map, ok, err,
  ◌≡◌, refl, ltb, if◌then◌else◌,
}
use pipelined_core.Common.Int.{pos}
use pipelined_core.Common.Text.{Text, codes}
use pipelined_core.Coverage.Report.{summarize, find_group, File, Group, Report}
use pipelined_core.Closure.Record.{
  unhit, Tools, Case, passed, failed, Evidence, Final, Frozen, Manifest, case_failed,
}
use pipelined_core.Closure.{State, main}
use pipelined_core.Closure.Cases.{LastFailed, case_key, frozen_key}
use pipelined_core.Closure.Complete.{Counted, Finished}
use pipelined_core.Closure.Bounded.{main-length}
use pipelined_core.Closure.Outcome.{main-Finished, main-LastFailed, main-Counted, main-frozen_key}

abbrev point : Text → Text → Text
point name bin =
    name
    ++ (codes ": coverpoint v {bins " ++ (bin ++ (codes " = {1};" ++ (10 ∷ codes "        }"))))

abbrev cross_model : Text
cross_model =
    codes "covergroup sc_cg; bins ok = {1}; endgroup covergroup x_cg; scenario: cross "
    ++ (point (codes "h") (codes "raw")
        ++ (point (codes "e") (codes "load")
            ++ (point (codes "s") (codes "id") ++ codes "endgroup")))

abbrev target : Text
target = codes "raw_x_load_x_id"

abbrev cross_record : Text → Text → Text → Text
cross_record page bin n =
    codes "C '"
    ++ (1 ∷ codes "t"
        ++ (2 ∷ codes "covergroup"
            ++ (1 ∷ codes "f"
                ++ (2 ∷ codes "cpu_coverage.sv"
                    ++ (1 ∷ codes "page"
                        ++ (2 ∷ page
                            ++ (1 ∷ codes "bin"
                                ++ (2 ∷ bin
                                    ++ (1 ∷ codes "cross"
                                        ++ (2 ∷ codes "1"
                                            ++ (codes "' " ++ (n ++ 10 ∷ []))))))))))))

abbrev simulation : Text → Text
simulation n =
    cross_record (codes "sc_cg") (codes "ok") (codes "1") ++ cross_record (codes "x_cg") target n

-- The world counts the runs; each run adds a file that hits the bin.
abbrev runs : Bool → Tools
runs agreed = record {
  World = ℕ;
  model = cross_model;
  sha256 = λ text. codes "hash";
  generate = λ seed hazard exception stage. some hazard;
  assemble = λ source w. (true, w);
  extract = λ w. (true, w);
  lockstep = λ w. (agreed, w + 1);
  log = λ w. codes "PASS: 12 architectural events";
  files = λ w.
      if ltb 0 w
      then (codes "/a.dat", simulation (codes "0")) ∷ (codes "/b.dat", simulation (codes "1")) ∷ []
      else (codes "/a.dat", simulation (codes "0")) ∷ [];
}

abbrev cross_report : (files hit : ℕ) → Report
cross_report files hit = record {
  cross_hit = hit;
  cross_total = 1;
  files = files;
  hit = 1 + hit;
  total = 2;
  groups =
      record {
        name = codes "hazard_trap_stage";
        hit = hit;
        total = 1;
        bins = (target, hit) ∷ [];
        uncovered = if ltb 0 hit then [] else target ∷ [];
      }
      ∷ record {
        name = codes "sc";
        hit = 1;
        total = 1;
        bins = (codes "ok", files) ∷ [];
        uncovered = [];
      }
      ∷ [];
}

abbrev evidence_of : List Case → Option Final → Evidence
evidence_of cases final = record {
  baseline_cross_hit = 0;
  cross_total = 1;
  baseline_percent = (1, 2);
  model_sha256 = codes "hash";
  cases = cases;
  final = final;
}

abbrev complete : Evidence
complete = evidence_of (passed 1000 target (target ∷ []) 1 (codes "hash") 12 ∷ []) (
    some (record {
      final_cross_hit = 1;
      final_percent = (2, 2);
      scenarios_closed = pos 1;
      seed_runs = 1;
    }))

abbrev at_end : State (runs true)
at_end = record {
  world = 1;
  report = cross_report 2 1;
  evidence = complete;
  written = some complete;
}

search_ends : main (runs true) none 0 ≡ (ok tt, some at_end)
unfolding main pipelined_core.Coverage.Report.summarize pipelined_core.Coverage.Model.expected_bins
    pipelined_core.Regex.search_all pipelined_core.Common.Bytes.find pipelined_core.Regex.find_all
    pipelined_core.Common.Text.Lines.splitlines pipelined_core.Common.Text.Lines.after_prefix
    pipelined_core.Regex.fullmatch pipelined_core.Common.Text.Lines.split_from
    pipelined_core.Common.Text.Lines.split_once pipelined_core.Common.Text.Lines.path_name
    pipelined_core.Common.Text.Lines.removesuffix pipelined_core.Coverage.Keys.has_key
    pipelined_core.Coverage.Keys.add_keys pipelined_core.Common.Text.int_10
    pipelined_core.Closure.Record.unhit pipelined_core.Common.Text.Lines.text_lt
    pipelined_core.Closure.attempts pipelined_core.Closure.cases_of
    pipelined_core.Closure.Record.checked_events pipelined_core.Closure.close
    pipelined_core.Closure.execute pipelined_core.Closure.finish pipelined_core.Closure.judge
    pipelined_core.Closure.replay pipelined_core.Closure.search
    pipelined_core.Closure.Record.target_parts pipelined_core.Closure.Record.without
    pipelined_core.Common.Text.Lines.split_at pipelined_core.Coverage.Keys.count_of
    pipelined_core.Coverage.Records.among
search_ends = refl

main-Finished_example : Finished at_end
main-Finished_example = main-Finished (runs true) none 0 search_ends

main-Counted_example : Counted complete.cases
main-Counted_example = main-Counted (runs true) 0 (ok tt) search_ends

baseline_read : summarize cross_model cross_model ((runs true).files 0) ≡ ok (cross_report 1 0)
unfolding summarize pipelined_core.Coverage.Model.expected_bins pipelined_core.Regex.search_all
    pipelined_core.Common.Bytes.find pipelined_core.Regex.find_all
    pipelined_core.Common.Text.Lines.splitlines pipelined_core.Common.Text.Lines.after_prefix
    pipelined_core.Regex.fullmatch pipelined_core.Common.Text.Lines.split_from
    pipelined_core.Common.Text.Lines.split_once pipelined_core.Common.Text.Lines.path_name
    pipelined_core.Common.Text.Lines.removesuffix pipelined_core.Coverage.Keys.has_key
    pipelined_core.Coverage.Keys.add_keys pipelined_core.Common.Text.int_10
    pipelined_core.Common.Text.Lines.text_lt pipelined_core.Coverage.Keys.count_of
baseline_read = refl

one_target : unhit (cross_report 1 0) ≡ ok (target ∷ [])
unfolding unhit find_group
one_target = refl

main-length_example : length complete.cases ≤ 32
main-length_example = main-length (runs true) 0 (ok tt) baseline_read one_target search_ends

abbrev frozen_once : Manifest
frozen_once = record {
  model_sha256 = codes "hash";
  seeds = record { seed = 1000; target = target; source_sha256 = codes "hash" } ∷ [];
}

replay_ends : main (runs true) (some frozen_once) 0 ≡ (ok tt, some at_end)
unfolding main pipelined_core.Coverage.Report.summarize pipelined_core.Coverage.Model.expected_bins
    pipelined_core.Regex.search_all pipelined_core.Common.Bytes.find pipelined_core.Regex.find_all
    pipelined_core.Common.Text.Lines.splitlines pipelined_core.Common.Text.Lines.after_prefix
    pipelined_core.Regex.fullmatch pipelined_core.Common.Text.Lines.split_from
    pipelined_core.Common.Text.Lines.split_once pipelined_core.Common.Text.Lines.path_name
    pipelined_core.Common.Text.Lines.removesuffix pipelined_core.Coverage.Keys.has_key
    pipelined_core.Coverage.Keys.add_keys pipelined_core.Common.Text.int_10
    pipelined_core.Closure.Record.unhit pipelined_core.Common.Text.Lines.text_lt
    pipelined_core.Closure.attempts pipelined_core.Closure.cases_of
    pipelined_core.Closure.Record.checked_events pipelined_core.Closure.close
    pipelined_core.Closure.execute pipelined_core.Closure.finish pipelined_core.Closure.judge
    pipelined_core.Closure.replay pipelined_core.Closure.search
    pipelined_core.Closure.Record.target_parts pipelined_core.Closure.Record.without
    pipelined_core.Common.Text.Lines.split_at pipelined_core.Coverage.Keys.count_of
    pipelined_core.Coverage.Records.among
replay_ends = refl

main-frozen_key_example : map case_key complete.cases ≡ map frozen_key frozen_once.seeds
main-frozen_key_example = main-frozen_key (runs true) frozen_once 0 replay_ends

abbrev after_failure : State (runs false)
after_failure = record {
  world = 1;
  report = cross_report 1 0;
  evidence = evidence_of (failed 1000 target ∷ []) none;
  written = some (evidence_of (failed 1000 target ∷ []) none);
}

search_fails : main (runs false) none 0 ≡ (err (case_failed 1000), some after_failure)
unfolding main pipelined_core.Coverage.Report.summarize pipelined_core.Coverage.Model.expected_bins
    pipelined_core.Regex.search_all pipelined_core.Common.Bytes.find pipelined_core.Regex.find_all
    pipelined_core.Common.Text.Lines.splitlines pipelined_core.Common.Text.Lines.after_prefix
    pipelined_core.Regex.fullmatch pipelined_core.Common.Text.Lines.split_from
    pipelined_core.Common.Text.Lines.split_once pipelined_core.Common.Text.Lines.path_name
    pipelined_core.Common.Text.Lines.removesuffix pipelined_core.Coverage.Keys.has_key
    pipelined_core.Coverage.Keys.add_keys pipelined_core.Common.Text.int_10
    pipelined_core.Closure.Record.unhit pipelined_core.Common.Text.Lines.text_lt
    pipelined_core.Closure.attempts pipelined_core.Closure.cases_of
    pipelined_core.Closure.Record.checked_events pipelined_core.Closure.close
    pipelined_core.Closure.execute pipelined_core.Closure.finish pipelined_core.Closure.judge
    pipelined_core.Closure.replay pipelined_core.Closure.search
    pipelined_core.Closure.Record.target_parts pipelined_core.Closure.Record.without
    pipelined_core.Common.Text.Lines.split_at pipelined_core.Coverage.Keys.count_of
    pipelined_core.Coverage.Records.among
search_fails = refl

main-LastFailed_example : LastFailed 1000 after_failure
main-LastFailed_example = main-LastFailed (runs false) none 0 search_fails
