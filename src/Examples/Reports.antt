-- ===== src/Examples/Reports.antt =====
-- A coverage model of three bins and the records of two simulations.
use pipelined_core.Common.{ℕ, ◌+◌, true, false, List, [], ◌∷◌, ◌++◌, ok, ◌≡◌, refl, some, none}
use pipelined_core.Common.Text.{Text, codes}
use pipelined_core.Common.Text.Lines.{splitlines}
use pipelined_core.Coverage.Keys.{Key, Counts, count_of, has_key, count_keys}
use pipelined_core.Coverage.Exact.{Distinct}
use pipelined_core.Coverage.Reading.{Counted, total_for, read_counts-exact}
use pipelined_core.Coverage.Records.{read_counts}
use pipelined_core.Coverage.Report.{File, Report, merge_files, summarize}
use pipelined_core.Coverage.Sums.{AddsUp, Reads, sum_over, merge_files-sum, summarize-AddsUp}

abbrev pub small_model : Text
small_model =
    codes
      "covergroup sc_cg; bins success = {1}; bins failure ={0}; endgroup covergroup trap_cg; bins load = {5}; endgroup"

abbrev small_bins : List Key
small_bins =
    (codes "sc", codes "success")
    ∷ (codes "sc", codes "failure")
    ∷ (codes "trap", codes "load")
    ∷ []

-- A line of the counter file.
abbrev counter : Text → Text → Text → Text
counter page bin n =
    codes "C '"
    ++ (1 ∷ codes "t"
        ++ (2 ∷ codes "covergroup"
            ++ (1 ∷ codes "f"
                ++ (2 ∷ codes "tests/core/cpu_coverage.sv"
                    ++ (1 ∷ codes "page"
                        ++ (2 ∷ page
                            ++ (1 ∷ codes "bin"
                                ++ (2 ∷ bin ++ (codes "' " ++ (n ++ 10 ∷ []))))))))))

abbrev pub small_content : Text
small_content =
    counter (codes "v_covergroup/sc_cg") (codes "success") (codes "2")
    ++ (counter (codes "v_covergroup/sc_cg") (codes "failure") (codes "0")
        ++ counter (codes "v_covergroup/trap_cg") (codes "load") (codes "13"))

abbrev small_counts : Counts
small_counts =
    ((codes "sc", codes "success"), 2)
    ∷ ((codes "sc", codes "failure"), 0)
    ∷ ((codes "trap", codes "load"), 13)
    ∷ []

small_content_read : read_counts [] small_bins small_content ≡ ok small_counts
unfolding read_counts pipelined_core.Common.Text.Lines.splitlines
    pipelined_core.Common.Text.Lines.after_prefix pipelined_core.Regex.fullmatch
    pipelined_core.Common.Text.Lines.split_from pipelined_core.Common.Text.Lines.split_once
    pipelined_core.Common.Text.Lines.path_name has_key pipelined_core.Common.Text.Lines.removesuffix
    pipelined_core.Common.Text.int_10 pipelined_core.Coverage.Keys.bump
small_content_read = refl

read_counts-exact_example :
    (Distinct (count_keys small_counts)
      × ((k : Key) → has_key k (count_keys small_counts) ≡ has_key k small_bins))
    × ((records : List (Key × ℕ)) × (Counted [] (splitlines small_content) records
          × ((k : Key) → count_of k small_counts ≡ total_for k records)))
read_counts-exact_example = read_counts-exact [] small_bins small_content small_content_read

abbrev pub small_files : List File
small_files =
    (codes "/a.dat", small_content)
    ∷ (codes "/b.dat", small_content)
    ∷ (codes "/a.dat", small_content)
    ∷ []

abbrev merged : Counts
merged =
    ((codes "sc", codes "success"), 6)
    ∷ ((codes "sc", codes "failure"), 0)
    ∷ ((codes "trap", codes "load"), 39)
    ∷ []

merged_twice : merge_files [] small_bins small_files [] ≡ ok merged
unfolding merge_files pipelined_core.Common.Text.Lines.splitlines
    pipelined_core.Common.Text.Lines.after_prefix pipelined_core.Regex.fullmatch
    pipelined_core.Common.Text.Lines.split_from pipelined_core.Common.Text.Lines.split_once
    pipelined_core.Common.Text.Lines.path_name has_key pipelined_core.Common.Text.Lines.removesuffix
    pipelined_core.Common.Text.int_10
merged_twice = refl

merge_files-sum_example :
    (reads : List Counts) × Reads [] small_bins small_files reads
    × ((k : Key) → count_of k merged ≡ count_of k [] + sum_over k reads)
merge_files-sum_example = merge_files-sum [] small_bins small_files [] merged_twice

-- The file that is named twice counts once.
abbrev pub small_report : Report
small_report = record {
  cross_hit = 0;
  cross_total = 0;
  files = 2;
  hit = 2;
  total = 3;
  groups =
      record {
        name = codes "sc";
        hit = 1;
        total = 2;
        bins = (codes "failure", 0) ∷ (codes "success", 4) ∷ [];
        uncovered = codes "failure" ∷ [];
      }
      ∷ record {
        name = codes "trap";
        hit = 1;
        total = 1;
        bins = (codes "load", 26) ∷ [];
        uncovered = [];
      }
      ∷ [];
}

small_summary : summarize small_model small_model small_files ≡ ok small_report
unfolding summarize pipelined_core.Coverage.Model.expected_bins pipelined_core.Regex.search_all
    pipelined_core.Common.Bytes.find pipelined_core.Regex.find_all
    pipelined_core.Common.Text.Lines.splitlines pipelined_core.Common.Text.Lines.after_prefix
    pipelined_core.Regex.fullmatch pipelined_core.Common.Text.Lines.split_from
    pipelined_core.Common.Text.Lines.split_once pipelined_core.Common.Text.Lines.path_name has_key
    pipelined_core.Coverage.Keys.add_keys pipelined_core.Common.Text.Lines.removesuffix
    pipelined_core.Common.Text.int_10 pipelined_core.Common.Text.Lines.text_lt count_of
small_summary = refl

summarize-AddsUp_example : AddsUp small_report
summarize-AddsUp_example = summarize-AddsUp small_model small_model small_files small_summary
