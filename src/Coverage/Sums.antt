-- ===== src/Coverage/Sums.antt =====
-- The report of a regression, from the files to the totals.
use pipelined_core.Common.{
  some, some_inj, ℕ, ◌+◌, ◌≤◌, true, ◌||◌, List, [], ◌∷◌, length, any, Bool-cases, ok, >>=-eq-ok,
  ok_inj, ◌≡◌, inl, inr, refl, subst, sym, ap, ◌∙◌, arith,
}
use pipelined_core.Common.Text.{Text, text_eq}
use pipelined_core.Regex.{search_all}
use pipelined_core.Coverage.Keys.{Key, has_key, add_keys, bump, Counts, count_of, count_keys}
use pipelined_core.Coverage.Exact.{
  Recorded, bump-Recorded, Distinct, add_keys-Distinct, key_eq_refl,
}
use pipelined_core.Coverage.Model.{
  cross_group, Groups, is_empty, group_re, plain_groups, group_keys, cross_keys, cross_partitions,
  expected_bins,
}
use pipelined_core.Coverage.Records.{read_counts}
use pipelined_core.Coverage.Reading.{read_counts-Distinct}
use pipelined_core.Coverage.Report.{
  find_group, hit_of, total_of, File, merge, merge_files, distinct_files, Group, hits, uncovered_in,
  bins_in, group_reports, group_names, sort_names, Report, report_of, summarize_files, summarize,
}
use pipelined_core.Coverage.Totals.{
  sum_total, sum_hit, sum_total-length, sum_hit-keys, Covers-group_names,
}
use pipelined_core.Coverage.Merge.{count_of-merge, count_hits-hit_keys}

expected_bins-Distinct :
    (model : Text) {expected : List Key} → expected_bins model ≡ ok expected → Distinct expected
unfolding expected_bins
expected_bins-Distinct model h =
    let groups = plain_groups (search_all group_re 0 model) [] in
    elim (Bool-cases (is_empty groups || any (λ entry. is_empty entry.1) groups)) [
      | inl bad ↦ (let g = rw (expected_bins, bad) at h in cc g)
      | inr good ↦ subst Distinct (ok_inj (rw (expected_bins, good) at h)) (
          add_keys-Distinct (add_keys [] (group_keys groups)) (cross_keys (cross_partitions model))
            (add_keys-Distinct [] (group_keys groups) tt))
    ]

merge-Recorded :
    (expected : List Key) (counts more : Counts)
    → ((k : Key) → has_key k (count_keys more) ≡ true → has_key k expected ≡ true)
    → Recorded expected counts
    → Recorded expected (merge counts more)
unfolding merge has_key
merge-Recorded expected counts [] sub r = r
merge-Recorded expected counts ((k, n) ∷ more) sub r =
    merge-Recorded expected (bump k n counts) more (λ j found. sub j (rw found (ground arith)))
      (bump-Recorded expected k n counts (sub k (rw (key_eq_refl k) refl)) r)

-- What each file has been read as, in the order of the files.
pub data Reads (crosses : Groups) (expected : List Key) : List File → List Counts → Type 0 where
  none_left : Reads crosses expected [] []
  next :
      {file : File} {files : List File} {read : Counts} {reads : List Counts}
      → read_counts crosses expected file.1 ≡ ok read
      → Reads crosses expected files reads
      → Reads crosses expected (file ∷ files) (read ∷ reads)

abbrev pub sum_over : Key → List Counts → ℕ
sum_over k [] = 0
sum_over k (read ∷ reads) = count_of k read + sum_over k reads

module _ (crosses : Groups) (expected : List Key) where
  merge_files-Recorded :
      (files : List File) (counts : Counts) {end : Counts}
      → merge_files crosses expected files counts ≡ ok end
      → Recorded expected counts
      → Recorded expected end
  unfolding merge_files
  merge_files-Recorded [] counts h r = subst (Recorded expected) (ok_inj h) r
  merge_files-Recorded (file ∷ files) counts h r =
      let (read, e, h1) = >>=-eq-ok (read_counts crosses expected file.1) _ h in
      let (_, same) = read_counts-Distinct crosses expected file.1 e in
      merge_files-Recorded files (merge counts read) h1
        (merge-Recorded expected counts read (λ k found. sym (same k) ∙ found) r)

  -- Where all files are read, the merged count of every bin is the count so far and the sum of its
  -- counts in the files.
  pub merge_files-sum :
      (files : List File) (counts : Counts) {end : Counts}
      → merge_files crosses expected files counts ≡ ok end
      → (reads : List Counts) × Reads crosses expected files reads
        × ((k : Key) → count_of k end ≡ count_of k counts + sum_over k reads)
  unfolding merge_files
  merge_files-sum [] counts h = ([], none_left, λ k. ap (count_of k) (sym (ok_inj h)) ∙ omega arith)
  merge_files-sum (file ∷ files) counts h =
      let (read, e, h1) = >>=-eq-ok (read_counts crosses expected file.1) _ h in
      let (distinct, _) = read_counts-Distinct crosses expected file.1 e in
      let (reads, rs, sums) = merge_files-sum files (merge counts read) h1 in
      (read ∷ reads, next e rs, λ k. omega (arith, sums k, count_of-merge k counts read distinct))

-- In each group a bin is either hit or uncovered.
abbrev pub AllBalanced : List Group → Type 0
AllBalanced [] = Unit
AllBalanced (g ∷ gs) = (g.total ≡ g.hit + length g.uncovered) × AllBalanced gs

length-uncovered_in :
    (bins : List (Text × ℕ)) → length bins ≡ hits bins + length (uncovered_in bins)
unfolding hits uncovered_in
length-uncovered_in [] = refl
length-uncovered_in ((name, n) ∷ bins) = ground (arith, length-uncovered_in bins)

group_reports-AllBalanced :
    (expected : List Key) (counts : Counts) (gs : List Text)
    → AllBalanced (group_reports expected counts gs)
unfolding group_reports
group_reports-AllBalanced expected counts [] = tt
group_reports-AllBalanced expected counts (g ∷ gs) =
    (length-uncovered_in (bins_in g expected counts), group_reports-AllBalanced expected counts gs)

AllBalanced-le : (gs : List Group) → AllBalanced gs → sum_hit gs ≤ sum_total gs
AllBalanced-le [] b = omega arith
AllBalanced-le (g ∷ gs) b = omega (arith, b.0, AllBalanced-le gs b.1)

pub AllBalanced-find_group :
    (g : Text) (rs : List Group) {r : Group}
    → find_group g rs ≡ some r
    → AllBalanced rs
    → r.total ≡ r.hit + length r.uncovered
unfolding find_group
AllBalanced-find_group g [] h b = cc
AllBalanced-find_group g (q ∷ rs) h b = elim (Bool-cases (text_eq g q.name)) [
  | inl this ↦
      (let e = some_inj (rw this at h) in subst (λ r. r.total ≡ r.hit + length r.uncovered) e b.0)
  | inr other ↦ AllBalanced-find_group g rs (rw other at h) b.1
]

-- The totals of the report are those of its groups.
pub record AddsUp (report : Report) : Type 0 where
  pub total : report.total ≡ sum_total report.groups
  pub hit : report.hit ≡ sum_hit report.groups
  pub bounded : report.hit ≤ report.total
  pub balanced : AllBalanced report.groups
  pub cross_hit : report.cross_hit ≡ hit_of (find_group cross_group report.groups)
  pub cross_total : report.cross_total ≡ total_of (find_group cross_group report.groups)

report_of-AddsUp :
    (expected : List Key) (counts : Counts) (n : ℕ)
    → Distinct expected
    → Recorded expected counts
    → AddsUp (report_of expected counts n)
unfolding report_of
report_of-AddsUp expected counts n distinct r =
    let gs = sort_names (group_names expected) in
    let covered = Covers-group_names counts expected in
    let total = sum_total-length counts gs expected covered in
    let hit =
      count_hits-hit_keys counts expected r.distinct distinct r.known
      ∙ sym (sum_hit-keys counts gs expected covered) in
    let balanced = group_reports-AllBalanced expected counts gs in
    record {
      total = sym total;
      hit = hit;
      bounded =
          omega (arith, hit, total, AllBalanced-le (group_reports expected counts gs) balanced);
      balanced = balanced;
      cross_hit = refl;
      cross_total = refl;
    }

summarize_files-AddsUp :
    (crosses : Groups) (expected : List Key) (files : List File) {report : Report}
    → Distinct expected
    → summarize_files crosses expected files ≡ ok report
    → AddsUp report
unfolding has_key
summarize_files-AddsUp crosses expected [] distinct h = cc
summarize_files-AddsUp crosses expected (file ∷ files) distinct h =
    let (counts, merged, h1) = >>=-eq-ok (merge_files crosses expected (file ∷ files) []) _ h in
    let r =
      merge_files-Recorded crosses expected (file ∷ files) [] merged
        (record { distinct = tt; known = λ k found. cc found }) in
    subst AddsUp (ok_inj h1) (report_of-AddsUp expected counts (length (file ∷ files)) distinct r)

-- Where `summarize` returns a report, the whole report has as many bins as its groups have
-- together and as many hit bins, no more are hit than there are, in each group every bin is either
-- hit or listed as uncovered, and the numbers of the cross are those of its group.
pub summarize-AddsUp :
    (default_model model : Text) (files : List File) {report : Report}
    → summarize default_model model files ≡ ok report
    → AddsUp report
unfolding summarize
summarize-AddsUp default_model model files h =
    let (expected, bins, h1) = >>=-eq-ok (expected_bins model) _ h in
    summarize_files-AddsUp (cross_partitions default_model) expected (distinct_files files)
      (expected_bins-Distinct model bins) h1
