-- ===== src/Summary/Printed.antt =====
-- What scripts/summarize_checkpoint9_reports.py prints, line by line.
use pipelined_core.Common.{ℕ, Bool, ◌&&◌, ◌||◌, List, [], ◌∷◌, ◌++◌, length, take, if◌then◌else◌}
use pipelined_core.Common.Decimal.{decimal}
use pipelined_core.Common.Text.{Text, codes, text_eq}
use pipelined_core.Common.Text.Lines.{text_lt}
use pipelined_core.Coverage.Keys.{Key}
use pipelined_core.Summary.{contains}
use pipelined_core.Summary.Cdc.{Detail, Difference}
use pipelined_core.Summary.Report.{Report}

-- Pairs of a rule and a family are ordered by the rule first.
abbrev pub key_lt : Key → Key → Bool
key_lt a b = text_lt a.0 b.0 || (text_eq a.0 b.0 && text_lt a.1 b.1)

module _ {A : Type 0} where
  -- `sorted`, of entries with different keys
  unfoldable pub insert_entry : Key × A → List (Key × A) → List (Key × A)
  insert_entry entry [] = entry ∷ []
  insert_entry entry (e ∷ entries) =
      let rest = insert_entry entry entries in
      if key_lt entry.0 e.0 then entry ∷ e ∷ entries else e ∷ rest

  unfoldable pub sort_entries : List (Key × A) → List (Key × A)
  unfolding insert_entry
  sort_entries [] = []
  sort_entries (e ∷ entries) = insert_entry e (sort_entries entries)

abbrev pub group_lines : List (Key × ℕ) → List Text
group_lines [] = []
group_lines ((key, count) ∷ groups) =
    (key.0 ++ (codes ": " ++ (decimal count ++ (32 ∷ key.1)))) ∷ group_lines groups

-- `key[0] in {...} or "OTHER" in key[1]`
abbrev pub is_shown : Key → Bool
is_shown key =
    text_eq key.0 (codes "CDC-10")
    || (text_eq key.0 (codes "CDC-11")
        || (text_eq key.0 (codes "CDC-13") || contains (codes "OTHER") key.1))

abbrev pub example_lines : List (Key × (Text × Text)) → List Text
example_lines [] = []
example_lines ((key, ends) ∷ examples) =
    let rest = example_lines examples in
    if is_shown key
    then (key.0 ++ (32 ∷ (key.1 ++ (codes ": " ++ (ends.0 ++ (codes " -> " ++ ends.1)))))) ∷ rest
    else rest

abbrev pub other_lines : List Text → List Text
other_lines [] = []
other_lines (line ∷ more) =
    []
    ∷ (codes "OTHER detail rows: " ++ (decimal (length (line ∷ more)) ++ codes "; first 10:"))
    ∷ take 10 (line ∷ more)

abbrev pub difference_lines : List Difference → List Text
difference_lines [] = []
difference_lines ((rule, (actual, expected)) ∷ more) =
    (rule
      ++ (codes ": "
          ++ (decimal actual
              ++ (codes " detail rows; " ++ (decimal expected ++ codes " summary count")))))
    ∷ difference_lines more

abbrev pub warning_lines : List Difference → List Text
warning_lines [] = []
warning_lines (d ∷ more) =
    []
    ∷ codes "CDC INVENTORY INCOMPLETE OR AGGREGATED: detail rows differ from summary counts."
    ∷ difference_lines (d ∷ more)

-- The lines behind the counts of the rules; an empty one stands for a leading line feed.
unfoldable pub cdc_lines : Detail → List Difference → List Text
unfolding sort_entries
cdc_lines detail warning =
    []
    ∷ codes "CDC SOURCE GROUPS (available detail rows)"
    ∷ (group_lines (sort_entries detail.groups)
        ++ ([]
            ∷ codes "CDC EXAMPLE ENDPOINTS"
            ∷ (example_lines (sort_entries detail.examples)
                ++ (other_lines detail.other
                    ++ (warning_lines warning
                        ++ ([]
                            ∷ codes
                                "Review full reports for path details and constraint coverage before signoff."
                            ∷ []))))))

abbrev pub period_lines : List (Text × Text) → List Text
period_lines [] = []
period_lines ((clock, period) ∷ more) =
    (clock ++ (codes ": " ++ (period ++ codes " ns"))) ∷ period_lines more

abbrev pub rule_heading : Text → Text
rule_heading name = name ++ codes " RULE COUNTS (original severities)"

-- All that a run without an error prints.
unfoldable pub printed : Report → List Text
unfolding cdc_lines
printed report =
    codes "TIMING (full details retained in timing_summary.rpt)"
    ∷ (report.timing
        ++ ([]
            ∷ codes "ROUTED RESOURCES"
            ∷ (report.resources
                ++ ([]
                    ∷ codes "CLOCK PERIODS"
                    ∷ (period_lines report.periods
                        ++ ([]
                            ∷ rule_heading (codes "methodology.rpt")
                            ∷ (report.methodology
                                ++ ([]
                                    ∷ rule_heading (codes "drc.rpt")
                                    ∷ (report.drc
                                        ++ ([]
                                            ∷ rule_heading (codes "CDC")
                                            ∷ (report.cdc_counts
                                                ++ cdc_lines report.detail report.warning)))))))))))
