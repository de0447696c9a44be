-- ===== src/Summary.antt =====
-- scripts/summarize_checkpoint9_reports.py: what it selects from the lines of Vivado's reports, and
-- its inventory of clock domain crossings.
pub mod Cdc
pub mod Report
pub mod Inventory
pub mod Printed
use pipelined_core.Common.{
  ℕ, Bool, true, false, ◌&&◌, ◌||◌, Option, none, some, List, [], ◌∷◌, ◌++◌, take, leb,
  if◌then◌else◌, Result, ok, err, ◌>>=◌,
}
use pipelined_core.Common.Bytes.{find}
use pipelined_core.Common.Text.{Text, codes, text_eq, is_digit}
use pipelined_core.Common.Text.Lines.{words_from, lstrip, startswith}
use pipelined_core.Coverage.Records.{among}
use pipelined_core.Regex.{Re, lit, cls, star, opt, alt, plus, ◌⨾◌, is_space, match_front}

-- `parser.error`, the ValueError of a crossing without two endpoints, and the IndexError of a clock
-- without a period.
pub data Error : Type 0 where
  missing_report : Text → Error
  no_endpoints : Error
  no_period : Error

-- `part in text`
abbrev pub contains : Text → Text → Bool
contains part text = elim (find part text 0) [ none ↦ false | some _ ↦ true ]

-- `re.match(r, line)`
abbrev pub matches : Re → Text → Bool
matches r line = elim (match_front r line) [ none ↦ false | some _ ↦ true ]

-- `text.split()`
abbrev pub words : Text → List Text
words = words_from []

-- The heading of the timing summary and the 14 lines below it; empty without a heading.
unfoldable pub timing_lines : List Text → List Text
unfolding lstrip
timing_lines [] = []
timing_lines (line ∷ lines) =
    let rest = timing_lines lines in
    if contains (codes "Design Timing Summary") line && startswith (codes "|") (lstrip line)
    then take 15 (line ∷ lines)
    else rest

abbrev any_of : Text → List Text → Re
any_of t [] = lit t
any_of t (s ∷ ss) = alt (lit t) (any_of s ss)

-- The pattern of the rows of routed resources.
abbrev pub resource_re : Re
resource_re =
    lit (codes "|")
    ⨾ star is_space
    ⨾ alt
        (any_of (codes "Slice LUTs")
          (codes "Slice Registers" ∷ codes "Slice" ∷ codes "Block RAM Tile" ∷ []))
        (alt (lit (codes "RAMB36/FIFO") ⨾ opt (lit (codes "*"))) (
          alt (lit (codes "RAMB18") ⨾ opt (lit (codes "*")))
            (any_of (codes "DSPs") (codes "DSP48E1" ∷ []))))
    ⨾ star is_space
    ⨾ lit (codes "|")

abbrev pub is_capital : ℕ → Bool
is_capital c = leb b'A' c && leb c b'Z'

-- `\|\s*[A-Z]+[A-Z0-9]*-\d+\s*\|`
abbrev pub rule_re : Re
rule_re =
    lit (codes "|")
    ⨾ star is_space
    ⨾ plus is_capital
    ⨾ star (λ c. is_capital c || is_digit c)
    ⨾ lit (codes "-")
    ⨾ plus is_digit
    ⨾ star is_space
    ⨾ lit (codes "|")

-- The lines that a pattern matches at the front.
unfoldable pub selected : Re → List Text → List Text
selected r [] = []
selected r (line ∷ lines) =
    let rest = selected r lines in if matches r line then line ∷ rest else rest

abbrev pub clocks : List Text
clocks =
    codes "board_clk_100"
    ∷ codes "clk50_unbuffered"
    ∷ codes "clk200_unbuffered"
    ∷ codes "clk_pll_i"
    ∷ []

-- A line of clocks.rpt: name and period, if it is one of the clocks.
abbrev clock_of : List Text → Result Error (List (Text × Text))
clock_of [] = ok []
clock_of (name ∷ []) = if among name clocks then err no_period else ok []
clock_of (name ∷ period ∷ more) = ok (if among name clocks then (name, period) ∷ [] else [])

unfoldable pub clock_periods : List Text → Result Error (List (Text × Text))
clock_periods [] = ok []
clock_periods (line ∷ lines) =
    clock_of (words line) >>= λ here. clock_periods lines >>= λ rest. ok (here ++ rest)
