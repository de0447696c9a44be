-- ===== src/Coverage/Report.antt =====
-- `summarize` and the exit status of the script.
use pipelined_core.Common.{
  ℕ, ◌+◌, ◌*◌, Bool, false, ◌||◌, Option, none, some, List, [], ◌∷◌, length, ltb, ◌==◌,
  if◌then◌else◌, Result, ok, err, ◌>>=◌,
}
use pipelined_core.Common.Text.{Text, text_eq}
use pipelined_core.Common.Text.Lines.{text_lt}
use pipelined_core.Coverage.Keys.{Key, Counts, count_of, bump}
use pipelined_core.Coverage.Model.{
  Error, no_files, cross_group, expected_bins, cross_partitions, Groups,
}
use pipelined_core.Coverage.Records.{among, read_counts}

-- A resolved path and the content of the file.
abbrev pub File : Type 0
File = Text × Text

abbrev pub has_path : Text → List File → Bool
has_path path [] = false
has_path path (file ∷ files) = text_eq path file.0 || has_path path files

-- Into a list that is sorted by the paths.
unfoldable pub insert_file : File → List File → List File
insert_file file [] = file ∷ []
insert_file file (f ∷ fs) =
    let rest = insert_file file fs in if text_lt file.0 f.0 then file ∷ f ∷ fs else f ∷ rest

-- `sorted({path.resolve() for path in files})`
unfoldable pub distinct_files : List File → List File
unfolding insert_file
distinct_files [] = []
distinct_files (file ∷ files) =
    let rest = distinct_files files in if has_path file.0 rest then rest else insert_file file rest

-- `for key, count in ...items(): counts[key] += count`
unfoldable pub merge : Counts → Counts → Counts
unfolding bump
merge counts [] = counts
merge counts ((k, n) ∷ more) = merge (bump k n counts) more

unfoldable pub merge_files : Groups → List Key → List File → Counts → Result Error Counts
unfolding read_counts merge
merge_files crosses expected [] counts = ok counts
merge_files crosses expected (file ∷ files) counts = read_counts crosses expected file.1 >>= λ read.
    merge_files crosses expected files (merge counts read)

-- `sorted` on the names of the groups
unfoldable pub insert_name : Text → List Text → List Text
insert_name t [] = t ∷ []
insert_name t (s ∷ ss) = let rest = insert_name t ss in if text_lt t s then t ∷ s ∷ ss else s ∷ rest

unfoldable pub sort_names : List Text → List Text
unfolding insert_name
sort_names [] = []
sort_names (t ∷ ts) = insert_name t (sort_names ts)

-- `{group for group, _ in expected}`
unfoldable pub group_names : List Key → List Text
group_names [] = []
group_names (k ∷ ks) = let rest = group_names ks in if among k.0 rest then rest else k.0 ∷ rest

-- Into bins that are sorted by their names
unfoldable pub insert_bin : Text × ℕ → List (Text × ℕ) → List (Text × ℕ)
insert_bin bin [] = bin ∷ []
insert_bin bin (b ∷ bs) =
    let rest = insert_bin bin bs in if text_lt bin.0 b.0 then bin ∷ b ∷ bs else b ∷ rest

-- The sorted bins of a group with their counts.
unfoldable pub bins_in : Text → List Key → Counts → List (Text × ℕ)
unfolding insert_bin
bins_in g [] counts = []
bins_in g (k ∷ ks) counts =
    let rest = bins_in g ks counts in
    if text_eq k.0 g then insert_bin (k.1, count_of k counts) rest else rest

unfoldable pub hits : List (Text × ℕ) → ℕ
hits [] = 0
hits ((name, n) ∷ bins) = (if ltb 0 n then 1 else 0) + hits bins

unfoldable pub uncovered_in : List (Text × ℕ) → List Text
uncovered_in [] = []
uncovered_in ((name, n) ∷ bins) =
    let rest = uncovered_in bins in if n == 0 then name ∷ rest else rest

pub record Group : Type 0 where
  pub name : Text
  pub hit : ℕ
  pub total : ℕ
  pub bins : List (Text × ℕ)
  pub uncovered : List Text

unfoldable pub group_report : List Key → Counts → Text → Group
unfolding bins_in hits uncovered_in
group_report expected counts g =
    let bins = bins_in g expected counts in
    record {
      name = g;
      hit = hits bins;
      total = length bins;
      bins = bins;
      uncovered = uncovered_in bins;
    }

unfoldable pub group_reports : List Key → Counts → List Text → List Group
unfolding group_report
group_reports expected counts [] = []
group_reports expected counts (g ∷ gs) =
    group_report expected counts g ∷ group_reports expected counts gs

-- `sum(count > 0 for count in counts.values())`
unfoldable pub count_hits : Counts → ℕ
count_hits [] = 0
count_hits ((k, n) ∷ cs) = (if ltb 0 n then 1 else 0) + count_hits cs

unfoldable pub find_group : Text → List Group → Option Group
find_group g [] = none
find_group g (r ∷ rs) = let rest = find_group g rs in if text_eq g r.name then some r else rest

abbrev pub hit_of : Option Group → ℕ
hit_of none = 0
hit_of (some r) = r.hit

abbrev pub total_of : Option Group → ℕ
total_of none = 0
total_of (some r) = r.total

-- The report; the percentages are those of hit and total.
pub record Report : Type 0 where
  pub cross_hit : ℕ
  pub cross_total : ℕ
  pub files : ℕ
  pub hit : ℕ
  pub total : ℕ
  pub groups : List Group

unfoldable pub report_of : List Key → Counts → ℕ → Report
unfolding group_reports sort_names group_names count_hits find_group
report_of expected counts files =
    let groups = group_reports expected counts (sort_names (group_names expected)) in
    record {
      cross_hit = hit_of (find_group cross_group groups);
      cross_total = total_of (find_group cross_group groups);
      files = files;
      hit = count_hits counts;
      total = length expected;
      groups = groups;
    }

-- `summarize` behind the set of the paths.
abbrev pub summarize_files : Groups → List Key → List File → Result Error Report
summarize_files crosses expected [] = err no_files
summarize_files crosses expected (file ∷ more) =
    merge_files crosses expected (file ∷ more) [] >>= λ counts.
    ok (report_of expected counts (length (file ∷ more)))

-- `read_counts` takes the partitions of the default model, whichever model is given; no call in the
-- repository gives another one.
unfoldable pub summarize : (default_model model : Text) → List File → Result Error Report
unfolding merge_files distinct_files report_of
summarize default_model model files = expected_bins model >>= λ expected.
    summarize_files (cross_partitions default_model) expected (distinct_files files)

-- The exit status of `main`, for a `--min-percent` that is a natural number.
unfoldable pub main : Text → ℕ → List File → ℕ
unfolding summarize
main model min_percent files = elim (summarize model model files) [
  | err e ↦ 1
  | ok report ↦ if ltb (100 * report.hit) (min_percent * report.total) then 1 else 0
]
