-- ===== src/Examples/Selftests.antt =====
-- A simulator that traps on its second answer, and files that are named twice.
use pipelined_core.Common.{
  ℕ, ◌+◌, Bool, true, false, none, some, List, [], ◌∷◌, ◌++◌, ok, ◌≡◌, refl, ◌==◌, if◌then◌else◌,
  arith,
}
use pipelined_core.Common.Text.{Text, codes}
use pipelined_core.Cached.{Simulator}
use pipelined_core.Coverage.Report.{File, Group, Report, summarize}
use pipelined_core.Coverage.Repeats.{AllNamed, summarize-append}
use pipelined_core.Examples.Events.{addi}
use pipelined_core.Examples.Reports.{small_model, small_content, small_files}
use pipelined_core.Lockstep.Event.{Event, Retire, cycle, retire}
use pipelined_core.Selftest.{Bench, run}
use pipelined_core.Selftest.Traced.{Traced, run-Traced_iff}
use mathlib.Core.Option.{Option}

abbrev trapping : Retire
trapping = record addi { trap = true }

abbrev second_traps : Text → Option Event
second_traps (n ∷ []) = some (if n == 0 then cycle else retire trapping)
second_traps _ = none

abbrev two_answers : Simulator
two_answers = record {
  World = ℕ;
  start = λ image environment w. w;
  send = λ text w. (true, w);
  read_line = λ w. (w ∷ [], w + 1);
  loads = second_traps;
  communicate = λ w. (none, w);
  running = λ w. false;
  kill = λ w. w;
  self_test = λ option image w. (true, w);
}

abbrev small_bench : Bench
small_bench = record {
  sim = two_answers;
  begin = λ image directory w. 0;
  run_option = λ image directory option w. (true, w);
  wait = λ w. (some true, w);
  leave = λ w. w;
  assemble = λ w. (true, w);
  extract = λ w. (true, w);
  files = λ directory w. (codes "/a.dat", small_content) ∷ [];
  model = small_model;
}

abbrev one_file : Report
one_file = record {
  cross_hit = 0;
  cross_total = 0;
  files = 1;
  hit = 2;
  total = 3;
  groups =
      record {
        name = codes "sc";
        hit = 1;
        total = 2;
        bins = (codes "failure", 0) ∷ (codes "success", 2) ∷ [];
        uncovered = codes "failure" ∷ [];
      }
      ∷ record {
        name = codes "trap";
        hit = 1;
        total = 1;
        bins = (codes "load", 13) ∷ [];
        uncovered = [];
      }
      ∷ [];
}

run_returns : (run small_bench (codes "image") (codes "fault") none 5).0 ≡ ok one_file
unfolding run pipelined_core.Cached.answer pipelined_core.Selftest.stop
    pipelined_core.Selftest.steps pipelined_core.Selftest.simulate summarize
    pipelined_core.Coverage.Model.expected_bins pipelined_core.Regex.search_all
    pipelined_core.Common.Bytes.find pipelined_core.Regex.find_all
    pipelined_core.Common.Text.Lines.splitlines pipelined_core.Common.Text.Lines.after_prefix
    pipelined_core.Regex.fullmatch pipelined_core.Common.Text.Lines.split_from
    pipelined_core.Common.Text.Lines.split_once pipelined_core.Common.Text.Lines.path_name
    pipelined_core.Common.Text.Lines.removesuffix pipelined_core.Coverage.Keys.has_key
    pipelined_core.Coverage.Keys.add_keys pipelined_core.Common.Text.int_10
    pipelined_core.Common.Text.Lines.text_lt pipelined_core.Coverage.Keys.count_of
    pipelined_core.Coverage.Records.among pipelined_core.Coverage.Report.distinct_files
    pipelined_core.Coverage.Report.report_of
run_returns = refl

run-Traced_iff_example : Traced small_bench (codes "image") (codes "fault") 5 one_file
run-Traced_iff_example =
    (run-Traced_iff small_bench (codes "image") (codes "fault") 5 one_file).0 run_returns

repeated : AllNamed ((codes "/a.dat", small_content) ∷ []) small_files
repeated = (refl, tt)

summarize-append_example :
    summarize small_model small_model (((codes "/a.dat", small_content) ∷ []) ++ small_files)
    ≡ summarize small_model small_model small_files
summarize-append_example =
    summarize-append small_model small_model ((codes "/a.dat", small_content) ∷ []) small_files
      repeated
