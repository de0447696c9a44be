-- ===== src/Selftest/Repeats.antt =====
-- The check that paths which are named twice do not count twice.
use pipelined_core.Common.{ℕ, true, List, [], ◌∷◌, ==_refl, ok, ◌≡◌, refl, ◌∙◌}
use pipelined_core.Common.Exec.{◌>>=◌}
use pipelined_core.Common.Text.{Text, text_eq_refl}
use pipelined_core.Coverage.Repeats.{AllNamed-refl, summarize-append}
use pipelined_core.Coverage.Report.{File, Group, Report, summarize}
use pipelined_core.Selftest.{Bench, check_repeats}
use pipelined_core.Selftest.Reports.{texts_eq, bins_eq, group_eq, groups_eq, report_eq}

texts_eq_refl : (ts : List Text) → texts_eq ts ts ≡ true
texts_eq_refl [] = refl
texts_eq_refl (t ∷ ts) = rw (text_eq_refl t, texts_eq_refl ts) refl

bins_eq_refl : (bins : List (Text × ℕ)) → bins_eq bins bins ≡ true
bins_eq_refl [] = refl
bins_eq_refl ((t, n) ∷ bins) = rw (text_eq_refl t, ==_refl n, bins_eq_refl bins) refl

group_eq_refl : (g : Group) → group_eq g g ≡ true
group_eq_refl g =
    rw
      (
        text_eq_refl g.name,
        ==_refl g.hit,
        ==_refl g.total,
        bins_eq_refl g.bins,
        texts_eq_refl g.uncovered,
      )
      refl

groups_eq_refl : (gs : List Group) → groups_eq gs gs ≡ true
groups_eq_refl [] = refl
groups_eq_refl (g ∷ gs) = rw (group_eq_refl g, groups_eq_refl gs) refl

report_eq_refl : (r : Report) → report_eq r r ≡ true
report_eq_refl r =
    rw
      (
        ==_refl r.cross_hit,
        ==_refl r.cross_total,
        ==_refl r.files,
        ==_refl r.hit,
        ==_refl r.total,
        groups_eq_refl r.groups,
      )
      refl

-- The check passes for every report: naming all its files twice gives the same one again.
pub check_repeats_ok :
    (b : Bench) (fault : Report) (files : List File) (w : b.sim.World)
    → summarize b.model b.model files ≡ ok fault
    → check_repeats b fault files w ≡ (ok tt, w)
unfolding check_repeats ◌>>=◌
check_repeats_ok b fault files w h =
    let twice = summarize-append b.model b.model files files (AllNamed-refl files) ∙ h in
    rw (check_repeats, twice, report_eq_refl fault) refl
