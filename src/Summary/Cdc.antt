-- ===== src/Summary/Cdc.antt =====
-- The clock domain crossings: the counts of the summary table, and the detail rows by family.
use pipelined_core.Common.{
  Bool, true, ◌&&◌, ℕ, ◌+◌, ◌||◌, Option, none, some, List, [], ◌∷◌, ◌++◌, ◌==◌, if◌then◌else◌,
  Result, ok, err, ◌>>=◌,
}
use pipelined_core.Common.Text.{Text, codes, text_eq, int_10, is_digit}
use pipelined_core.Common.Text.Lines.{startswith}
use pipelined_core.Coverage.Keys.{Counts, bump, has_key, Key}
use pipelined_core.Coverage.Model.{first_group}
use pipelined_core.Coverage.Records.{among}
use pipelined_core.Coverage.Report.{sort_names}
use pipelined_core.Regex.{
  Re, lit, star, group, alt, plus, ◌⨾◌, is_space, is_word, match_front, search_all,
}
use pipelined_core.Summary.{Error, no_endpoints, contains, words}

-- `(Critical|Warning|Info)`
abbrev severity_re : Re
severity_re = alt (lit (codes "Critical")) (alt (lit (codes "Warning")) (lit (codes "Info")))

abbrev cdc_re : Re
cdc_re = group (lit (codes "CDC-") ⨾ plus is_digit) ⨾ plus is_space ⨾ severity_re ⨾ plus is_space

-- `(CDC-\d+)\s+(Critical|Warning|Info)\s+(\d+)`, and the detail row with its number in front; the
-- group of the severity, which is not used, is left out.
abbrev pub summary_re : Re
summary_re = cdc_re ⨾ group (plus is_digit)

abbrev pub detail_re : Re
detail_re = star is_space ⨾ plus is_digit ⨾ plus is_space ⨾ cdc_re

-- A Counter of rules: `rows[rule]`, `rows[rule] = n` and `rows[rule] += 1`
abbrev pub Rows : Type 0
Rows = List (Text × ℕ)

unfoldable pub row_count : Text → Rows → ℕ
row_count r [] = 0
row_count r ((q, n) ∷ rows) = let rest = row_count r rows in if text_eq r q then n else rest

unfoldable pub set_row : Text → ℕ → Rows → Rows
set_row r n [] = (r, n) ∷ []
set_row r n ((q, m) ∷ rows) =
    let rest = set_row r n rows in if text_eq r q then (q, n) ∷ rows else (q, m) ∷ rest

unfoldable pub add_row : Text → Rows → Rows
add_row r [] = (r, 1) ∷ []
add_row r ((q, m) ∷ rows) =
    let rest = add_row r rows in if text_eq r q then (q, m + 1) ∷ rows else (q, m) ∷ rest

abbrev pub groups_at : Re → Text → Option (List Text)
groups_at r line = elim (match_front r line) [ none ↦ none | some found ↦ some found.1 ]

abbrev second : List Text → Text
second (a ∷ b ∷ more) = b
second _ = []

abbrev number_of : Option ℕ → ℕ
number_of none = 0
number_of (some n) = n

abbrev expected_line : Option (List Text) → Rows → Rows
expected_line none rows = rows
expected_line (some g) rows = set_row (first_group g) (number_of (int_10 (second g))) rows

-- `expected_rows` behind the loop over the lines.
unfoldable pub expected_rows : List Text → Rows → Rows
unfolding set_row
expected_rows [] rows = rows
expected_rows (line ∷ lines) rows =
    expected_rows lines (expected_line (groups_at summary_re line) rows)

-- `/crossing/(\w+_fifo)/`
abbrev pub fifo_re : Re
fifo_re = lit (codes "/crossing/") ⨾ group (plus is_word ⨾ lit (codes "_fifo")) ⨾ lit (codes "/")

abbrev pub other_family : Text
other_family = codes "OTHER (review required)"

abbrev fifo_name : List (List Text) → Option Text
fifo_name [] = none
fifo_name (g ∷ gs) = some (first_group g)

abbrev plain_family : (source destination : Text) → Text
plain_family source destination =
    if contains (codes "/bus/link_rst_n_reg/") source
    then codes "registered link reset"
    else if contains (codes "/calib_ui_reg/") source
    then codes "registered UART calibration status"
    else if startswith (codes "mig/") source || startswith (codes "mig/") destination
    then codes "generated MIG endpoints (review separately)"
    else other_family

abbrev family_by : Option Text → (source destination : Text) → Text
family_by none source destination = plain_family source destination
family_by (some fifo) source destination =
    if contains (codes "/storage_reg") source
    then fifo ++ codes " payload storage"
    else if contains (codes "/wr_gray_reg") source || contains (codes "/rd_gray_reg") source
    then fifo ++ codes " Gray pointer"
    else plain_family source destination

unfoldable pub family_of : (source destination : Text) → Text
family_of source destination =
    family_by (fifo_name (search_all fifo_re 0 source)) source destination

-- `fields[-2:]`, where there are two.
abbrev pub last_two : List Text → Result Error (Text × Text)
last_two [] = err no_endpoints
last_two (a ∷ []) = err no_endpoints
last_two (a ∷ b ∷ []) = ok (a, b)
last_two (a ∷ b ∷ c ∷ more) = last_two (b ∷ c ∷ more)

-- The variables of the loop over the detail rows.
pub record Detail : Type 0 where
  pub groups : Counts
  pub examples : List (Key × (Text × Text))
  pub other : List Text
  pub actual : Rows

abbrev pub no_rows : Detail
no_rows = record { groups = []; examples = []; other = []; actual = [] }

-- `examples.setdefault(key, value)`
unfoldable pub set_default :
    Key → Text × Text → List (Key × (Text × Text)) → List (Key × (Text × Text))
set_default k v [] = (k, v) ∷ []
set_default k v ((j, u) ∷ more) =
    let rest = set_default k v more in if has_key k (j ∷ []) then (j, u) ∷ more else (j, u) ∷ rest

-- A row of a rule with its endpoints.
abbrev pub add_detail : Text → Text → Text × Text → Detail → Detail
add_detail line rule ends d =
    let family = family_of ends.0 ends.1 in
    record {
      groups = bump (rule, family) 1 d.groups;
      examples = set_default (rule, family) ends d.examples;
      other = if text_eq family other_family then d.other ++ line ∷ [] else d.other;
      actual = add_row rule d.actual;
    }

abbrev pub detail_line : Text → Option (List Text) → Detail → Result Error Detail
detail_line line none d = ok d
detail_line line (some g) d =
    last_two (words line) >>= λ ends. ok (add_detail line (first_group g) ends d)

unfoldable pub details : List Text → Detail → Result Error Detail
unfolding family_of set_default add_row
details [] d = ok d
details (line ∷ lines) d =
    detail_line line (groups_at detail_re line) d >>= λ next. details lines next

abbrev pub row_names : Rows → List Text
row_names [] = []
row_names ((q, n) ∷ rows) = q ∷ row_names rows

-- `expected_rows.keys() | actual_rows.keys()`
unfoldable pub union : List Text → List Text → List Text
union [] names = names
union (t ∷ ts) names = let rest = union ts names in if among t rest then rest else t ∷ rest

-- A rule, its detail rows and its count in the summary.
abbrev pub Difference : Type 0
Difference = Text × (ℕ × ℕ)

unfoldable pub differing : (actual expected : Rows) → List Text → List Difference
unfolding row_count
differing actual expected [] = []
differing actual expected (r ∷ rs) =
    let rest = differing actual expected rs in
    if row_count r actual == row_count r expected
    then rest
    else (r, (row_count r actual, row_count r expected)) ∷ rest

-- `Counter.__eq__`, of Python 3.10 and later: a missing rule counts 0.
unfoldable pub counts_agree : (actual expected : Rows) → List Text → Bool
unfolding row_count
counts_agree actual expected [] = true
counts_agree actual expected (r ∷ rs) =
    row_count r actual == row_count r expected && counts_agree actual expected rs

abbrev pub counters_eq : (actual expected : Rows) → Bool
counters_eq actual expected =
    counts_agree actual expected (row_names actual)
    && counts_agree actual expected (row_names expected)

-- The lines of the warning, which is printed if the Counters differ.
unfoldable pub incomplete : (actual expected : Rows) → List Difference
unfolding union differing counts_agree
incomplete actual expected =
    if counters_eq actual expected
    then []
    else differing actual expected (sort_names (union (row_names expected) (row_names actual)))
