-- ===== src/Closure/Record.antt =====
-- The data of scripts/close_cpu_cross_coverage.py, and its functions on values.
use pipelined_core.Common.{
  ℕ, Bool, false, not, Option, none, some, List, [], ◌∷◌, if◌then◌else◌, Result, ok, err, or_raise,
}
use pipelined_core.Common.Int.{ℤ}
use pipelined_core.Common.Text.{Text, codes, text_eq, int_10, is_digit}
use pipelined_core.Common.Text.Lines.{split_at}
use pipelined_core.Coverage.Model
use pipelined_core.Coverage.Model.{cross_group, first_group}
use pipelined_core.Coverage.Records.{among}
use pipelined_core.Coverage.Report.{File, Group, Report, find_group}
use pipelined_core.Regex.{Re, lit, group, plus, ◌⨾◌, search_all}

-- A ValueError or KeyError of `summarize`, a KeyError on the groups of a report, the ValueErrors of
-- the target's parts and of the generator, a CalledProcessError, the TypeError of a log without the
-- verdict, and the RuntimeErrors of the script.
pub data Error : Type 0 where
  coverage_error : Model.Error → Error
  no_cross_group : Error
  bad_target : Error
  excluded_target : Error
  tool_failed : Error
  no_verdict : Error
  stimulus_differs : (seed : ℕ) → Error
  case_failed : (seed : ℕ) → Error
  other_model : Error
  remains_unhit : (target : Text) → Error
  incomplete : Error

pub record Tools : Type 1 where
  pub World : Type 0
  -- the content of tests/core/cpu_coverage.sv
  pub model : Text
  -- `hashlib.sha256(...).hexdigest()`
  pub sha256 : Text → Text
  -- `generate(seed, hazard, exception, stage)`, `none` where it raises a ValueError
  pub generate : ℕ → Text → Text → Text → Option Text
  -- the two runs with `check=True`, on the program: whether the status is 0
  pub assemble : Text → World → Bool × World
  pub extract : World → Bool × World
  -- the run of scripts/lockstep.py: whether `result.returncode` is 0
  pub lockstep : World → Bool × World
  -- `log.read_text()`
  pub log : World → Text
  -- the files of the raw directory
  pub files : World → List File

-- An entry of `evidence['cases']`; the file names follow from seed and target.
pub data Case : Type 0 where
  failed : (seed : ℕ) (target : Text) → Case
  passed :
      (seed : ℕ) (target : Text) (new_bins : List Text) (cross_hit_after : ℕ) (source_sha256 : Text)
      (spike_checked_events : ℕ)
      → Case

-- What is added at the end; `final_percent` and `baseline_percent` are kept as hit and total.
pub record Final : Type 0 where
  pub final_cross_hit : ℕ
  pub final_percent : ℕ × ℕ
  pub scenarios_closed : ℤ
  pub seed_runs : ℕ

-- `evidence`, without `cpu_bugs`, which is always 0.
pub record Evidence : Type 0 where
  pub baseline_cross_hit : ℕ
  pub cross_total : ℕ
  pub baseline_percent : ℕ × ℕ
  pub model_sha256 : Text
  pub cases : List Case
  pub final : Option Final

-- A case of the frozen manifest, and the manifest.
pub record Frozen : Type 0 where
  pub seed : ℕ
  pub target : Text
  pub source_sha256 : Text

pub record Manifest : Type 0 where
  pub model_sha256 : Text
  pub seeds : List Frozen

abbrev pub three_parts : List Text → Option (Text × (Text × Text))
three_parts (a ∷ b ∷ c ∷ []) = some (a, (b, c))
three_parts _ = none

-- `hazard, exception, stage = target.split('_x_')`
unfoldable pub target_parts : Text → Result Error (Text × (Text × Text))
target_parts target = or_raise (three_parts (split_at (codes "_x_") [] 0 target)) bad_target

-- `expected_source and source_hash != expected_source`
abbrev pub differs : Option Text → Text → Bool
differs none hash = false
differs (some []) hash = false
differs (some (c ∷ t)) hash = not (text_eq hash (c ∷ t))

-- `before - after`
unfoldable pub without : List Text → List Text → List Text
without [] after = []
without (t ∷ before) after =
    let rest = without before after in if among t after then rest else t ∷ rest

-- `PASS: (\d+) architectural events`
abbrev pub verdict_re : Re
verdict_re = lit (codes "PASS: ") ⨾ group (plus is_digit) ⨾ lit (codes " architectural events")

abbrev pub first_match : List (List Text) → Option ℕ
first_match [] = none
first_match (m ∷ ms) = int_10 (first_group m)

unfoldable pub checked_events : Text → Result Error ℕ
checked_events log = or_raise (first_match (search_all verdict_re 0 log)) no_verdict

abbrev pub uncovered_of : Option Group → Result Error (List Text)
uncovered_of none = err no_cross_group
uncovered_of (some g) = ok g.uncovered

-- `report['groups']['hazard_trap_stage']['uncovered']`
unfoldable pub unhit : Report → Result Error (List Text)
unhit report = uncovered_of (find_group cross_group report.groups)

abbrev pub as_coverage : {A : Type 0} → Result Model.Error A → Result Error A
as_coverage (ok a) = ok a
as_coverage (err e) = err (coverage_error e)
