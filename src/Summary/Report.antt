-- ===== src/Summary/Report.antt =====
-- The whole script: the reports in the order in which it reads them.
use pipelined_core.Common.{Option, List, [], Result, ok, ◌>>=◌, or_raise}
use pipelined_core.Common.Text.{Text, codes}
use pipelined_core.Summary.{
  Error, missing_report, timing_lines, resource_re, rule_re, selected, clock_periods,
}
use pipelined_core.Summary.Cdc.{
  summary_re, expected_rows, Detail, no_rows, details, Difference, incomplete,
}

-- What is printed, by its parts; the groups and examples are printed in the order of their keys.
pub record Report : Type 0 where
  pub timing : List Text
  pub resources : List Text
  pub periods : List (Text × Text)
  pub methodology : List Text
  pub drc : List Text
  pub cdc_counts : List Text
  pub detail : Detail
  pub warning : List Difference

-- The lines of the reports, by name; `none` is a report that is missing.
unfoldable pub summarize_reports : (Text → Option (List Text)) → Result Error Report
summarize_reports read =
    let report : Text → Result Error (List Text) =
      λ name. or_raise (read name) (missing_report name) in
    report (codes "timing_summary.rpt") >>= λ timing.
    report (codes "utilization.rpt") >>= λ utilization. report (codes "clocks.rpt") >>= λ clocks.
    clock_periods clocks >>= λ periods. report (codes "methodology.rpt") >>= λ methodology.
    report (codes "drc.rpt") >>= λ drc. report (codes "cdc.rpt") >>= λ cdc.
    details cdc no_rows >>= λ detail. ok (record {
      timing = timing_lines timing;
      resources = selected resource_re utilization;
      periods = periods;
      methodology = selected rule_re methodology;
      drc = selected rule_re drc;
      cdc_counts = selected summary_re cdc;
      detail = detail;
      warning = incomplete detail.actual (expected_rows cdc []);
    })
