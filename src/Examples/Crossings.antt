-- ===== src/Examples/Crossings.antt =====
-- A report of two rules with their detail rows, one of which the summary counts twice.
use pipelined_core.Common.{ℕ, true, none, some, List, [], ◌∷◌, ok, ◌≡◌, ◌↔◌, refl}
use pipelined_core.Common.Text.{Text, codes}
use pipelined_core.Summary.Cdc.{
  row_count, expected_rows, Detail, no_rows, details, other_family, incomplete,
}
use pipelined_core.Summary.Inventory.{sum_rule, details-sum_rule, incomplete_iff}

abbrev fifo_row : Text
fifo_row = codes "1   CDC-1  Critical  clk  a/crossing/rx_fifo/storage_reg  b/data_reg"

abbrev mig_row : Text
mig_row = codes "2   CDC-1  Critical  clk  mig/ui_reg  b/sync_reg"

abbrev stray_row : Text
stray_row = codes "3   CDC-3  Info  clk  a/x_reg  b/y_reg"

abbrev cdc_lines : List Text
cdc_lines =
    codes "CDC-1  Critical  2  1-bit unknown"
    ∷ codes "CDC-3  Info      2  1-bit synchronized"
    ∷ fifo_row
    ∷ mig_row
    ∷ stray_row
    ∷ []

abbrev found : Detail
found = record {
  groups =
      ((codes "CDC-1", codes "rx_fifo payload storage"), 1)
      ∷ ((codes "CDC-1", codes "generated MIG endpoints (review separately)"), 1)
      ∷ ((codes "CDC-3", other_family), 1)
      ∷ [];
  examples =
      (
        (codes "CDC-1", codes "rx_fifo payload storage"),
        (codes "a/crossing/rx_fifo/storage_reg", codes "b/data_reg"),
      )
      ∷ (
        (codes "CDC-1", codes "generated MIG endpoints (review separately)"),
        (codes "mig/ui_reg", codes "b/sync_reg"),
      )
      ∷ ((codes "CDC-3", other_family), (codes "a/x_reg", codes "b/y_reg"))
      ∷ [];
  other = stray_row ∷ [];
  actual = (codes "CDC-1", 2) ∷ (codes "CDC-3", 1) ∷ [];
}

lines_counted : details cdc_lines no_rows ≡ ok found
unfolding details pipelined_core.Regex.match_front pipelined_core.Common.Text.Lines.words_from
    pipelined_core.Coverage.Keys.bump pipelined_core.Coverage.Keys.has_key
    pipelined_core.Regex.search_all pipelined_core.Common.Bytes.find
    pipelined_core.Common.Text.Lines.after_prefix
lines_counted = refl

details-sum_rule_example :
    sum_rule (codes "CDC-1") found.groups ≡ row_count (codes "CDC-1") found.actual
details-sum_rule_example = details-sum_rule cdc_lines lines_counted (codes "CDC-1")

-- The rule of which the summary counts a row too many.
one_short : incomplete found.actual (expected_rows cdc_lines []) ≡ (codes "CDC-3", (1, 2)) ∷ []
unfolding incomplete pipelined_core.Coverage.Report.sort_names expected_rows
    pipelined_core.Regex.match_front pipelined_core.Coverage.Records.among
    pipelined_core.Common.Text.Lines.text_lt pipelined_core.Common.Text.int_10
one_short = refl

incomplete_iff_example :
    (incomplete found.actual (expected_rows cdc_lines []) ≡ [])
    ↔ ((r : Text) → row_count r found.actual ≡ row_count r (expected_rows cdc_lines []))
incomplete_iff_example = incomplete_iff found.actual (expected_rows cdc_lines [])
