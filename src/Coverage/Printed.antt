-- ===== src/Coverage/Printed.antt =====
-- `format_report` of scripts/report_cpu_coverage.py.
use pipelined_core.Common.{ℕ, List, [], ◌∷◌, ◌++◌}
use pipelined_core.Common.Decimal.{decimal}
use pipelined_core.Common.Text.{Text, codes}
use pipelined_core.Coverage.Report.{Group, Report}

-- `', '.join(names)`
abbrev pub comma_join : List Text → Text
comma_join [] = []
comma_join (name ∷ []) = name
comma_join (name ∷ next ∷ names) = name ++ (44 ∷ 32 ∷ comma_join (next ∷ names))

-- `{hit}/{total}`
abbrev pub share : ℕ → ℕ → Text
share hit total = decimal hit ++ (47 ∷ decimal total)

abbrev pub uncovered_lines : List Text → List Text
uncovered_lines [] = []
uncovered_lines (name ∷ names) = (codes "    uncovered: " ++ comma_join (name ∷ names)) ∷ []

abbrev pub group_lines : List Group → List Text
group_lines [] = []
group_lines (g ∷ gs) =
    (codes "  " ++ (g.name ++ (codes ": " ++ share g.hit g.total)))
    ∷ (uncovered_lines g.uncovered ++ group_lines gs)

-- The lines of the report, each with its line feed; `percent hit total` is the text of the percentage
-- with two decimals.
abbrev pub joined_lines : List Text → Text
joined_lines [] = []
joined_lines (line ∷ more) = line ++ (10 ∷ joined_lines more)

unfoldable pub format_report : (percent : ℕ → ℕ → Text) → Report → Text
format_report percent report = joined_lines (
    (codes "CPU functional coverage: "
      ++ (share report.hit report.total
          ++ (codes " bins (" ++ (percent report.hit report.total ++ codes "%)"))))
    ∷ (codes "Merged " ++ (decimal report.files ++ codes " simulation files; hit threshold: 1"))
    ∷ (codes "Hazard × trap × stage cross: "
        ++ (share report.cross_hit report.cross_total
            ++ (codes " ("
                ++ (percent report.cross_hit report.cross_total
                    ++ codes "%); 84 structurally excluded tuples"))))
    ∷ group_lines report.groups)
