-- ===== src/Selftest/Reports.antt =====
-- The comparison of coverage reports, and the counts that scripts/check_cpu_coverage.py looks up.
use pipelined_core.Common.{
  ℕ, Bool, true, false, ◌&&◌, ◌||◌, none, some, List, [], ◌∷◌, ◌==◌, if◌then◌else◌, Result, ok, err,
  ◌>>=◌, or_raise,
}
use pipelined_core.Common.Bytes.{find}
use pipelined_core.Common.Text.{Text, text_eq}
use pipelined_core.Coverage.Report.{Group, Report, find_group}

-- A KeyError.
pub data Missing : Type 0 where
  no_group no_bin : Text → Missing

abbrev pub texts_eq : List Text → List Text → Bool
texts_eq [] [] = true
texts_eq (s ∷ ss) (t ∷ ts) = text_eq s t && texts_eq ss ts
texts_eq _ _ = false

-- Dictionaries of counts, here in the order of their names.
abbrev pub bins_eq : List (Text × ℕ) → List (Text × ℕ) → Bool
bins_eq [] [] = true
bins_eq ((s, m) ∷ ss) ((t, n) ∷ ts) = text_eq s t && (m == n && bins_eq ss ts)
bins_eq _ _ = false

abbrev pub group_eq : Group → Group → Bool
group_eq g h =
    text_eq g.name h.name
    && (g.hit == h.hit
        && (g.total == h.total && (bins_eq g.bins h.bins && texts_eq g.uncovered h.uncovered)))

abbrev pub groups_eq : List Group → List Group → Bool
groups_eq [] [] = true
groups_eq (g ∷ gs) (h ∷ hs) = group_eq g h && groups_eq gs hs
groups_eq _ _ = false

-- `a == b` of two reports on one model
abbrev pub report_eq : Report → Report → Bool
report_eq a b =
    a.cross_hit == b.cross_hit
    && (a.cross_total == b.cross_total
        && (a.files == b.files
            && (a.hit == b.hit && (a.total == b.total && groups_eq a.groups b.groups))))

-- `report['groups'][name]['bins']`
unfoldable pub bins_of_group : Text → Report → Result Missing (List (Text × ℕ))
bins_of_group name report =
    or_raise (find_group name report.groups) (no_group name) >>= λ g. ok g.bins

unfoldable pub bin_count : Text → List (Text × ℕ) → Result Missing ℕ
bin_count name [] = err (no_bin name)
bin_count name ((n, k) ∷ bins) =
    let rest = bin_count name bins in if text_eq name n then ok k else rest

abbrev pub count_in : (group bin : Text) → Report → Result Missing ℕ
count_in group bin report = bins_of_group group report >>= λ bins. bin_count bin bins

abbrev holds : Text → Text → Bool
holds part name = elim (find part name 0) [ none ↦ false | some _ ↦ true ]

-- `all(part in name for name, count in bins.items() if count)`
abbrev pub only_hits : Text → List (Text × ℕ) → Bool
only_hits part [] = true
only_hits part ((name, n) ∷ bins) = (n == 0 || holds part name) && only_hits part bins

-- `all(count == 1 for count in bins.values())`
abbrev pub all_once : List (Text × ℕ) → Bool
all_once [] = true
all_once ((name, n) ∷ bins) = n == 1 && all_once bins
