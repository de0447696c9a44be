-- ===== src/Summary/Inventory.antt =====
-- The counts by rule and by family in the inventory of crossings.
use pipelined_core.Common.{
  and-eq-true, ℕ, ◌+◌, true, false, ◌||◌, Option, none, some, List, [], ◌∷◌, ◌==◌, if◌then◌else◌,
  Bool-cases, or-eq-false, ==_iff, ok, >>=-eq-ok, ok_inj, ◌≡◌, ◌↔◌, inl, inr, refl, sym, ap, ◌∙◌,
  subst, arith,
}
use pipelined_core.Common.Text.{Text, text_eq, text_eq→eq}
use pipelined_core.Coverage.Exact.{key_eq→eq}
use pipelined_core.Coverage.Keys.{Counts, Key, key_eq, bump}
use pipelined_core.Coverage.Model.{first_group}
use pipelined_core.Coverage.Records.{among}
use pipelined_core.Coverage.Report.{insert_name, sort_names}
use pipelined_core.Summary.{words}
use pipelined_core.Summary.Cdc.{
  Rows, row_count, add_row, groups_at, detail_re, Detail, no_rows, add_detail, last_two, family_of,
  detail_line, details, row_names, union, differing, counts_agree, counters_eq, incomplete,
}

-- The rows of a rule over all families.
abbrev pub sum_rule : Text → Counts → ℕ
sum_rule r [] = 0
sum_rule r ((k, n) ∷ cs) = (if text_eq r k.0 then n else 0) + sum_rule r cs

sum_rule-bump :
    (r : Text) (k : Key) (cs : Counts)
    → sum_rule r (bump k 1 cs) ≡ sum_rule r cs + (if text_eq r k.0 then 1 else 0)
unfolding bump
sum_rule-bump r k [] = ground arith
sum_rule-bump r k ((j, m) ∷ cs) = elim (Bool-cases (key_eq j k)) [
  | inl same ↦ rw (bump, same) (rw (key_eq→eq j k same) (ground arith))
  | inr other ↦ rw (bump, other) (omega (arith, sum_rule-bump r k cs))
]

text_eq-apart : (q r p : Text) → text_eq q p ≡ false → text_eq r p ≡ true → text_eq r q ≡ false
text_eq-apart q r p other found = elim (Bool-cases (text_eq r q)) [
  | inr apart ↦ apart
  | inl same ↦
      let e = sym other ∙ (ap (λ t. text_eq t p) (sym (text_eq→eq r q same)) ∙ found) in cc e
]

row_count-add_row :
    (r q : Text) (rows : Rows)
    → row_count r (add_row q rows) ≡ row_count r rows + (if text_eq r q then 1 else 0)
unfolding row_count add_row
row_count-add_row r q [] = ground arith
row_count-add_row r q ((p, m) ∷ rows) = elim (Bool-cases (text_eq q p)) [
  | inl same ↦ rw (add_row, same) (rw (text_eq→eq q p same) (ground arith))
  | inr other ↦ elim (Bool-cases (text_eq r p)) [
    | inr elsewhere ↦ rw (add_row, other) (rw (row_count, elsewhere) (row_count-add_row r q rows))
    | inl found ↦
        let apart : text_eq r q ≡ false = text_eq-apart q r p other found in
        rw (add_row, other) (rw (row_count, found, apart) (omega arith))
  ]
]

-- What the loop keeps: in each rule the families add up to its rows.
abbrev Balanced : Detail → Type 0
Balanced d = (r : Text) → sum_rule r d.groups ≡ row_count r d.actual

add_detail-Balanced :
    (line rule : Text) (ends : Text × Text) (d : Detail)
    → Balanced d
    → Balanced (add_detail line rule ends d)
add_detail-Balanced line rule ends d b r = omega (
  arith,
  sum_rule-bump r (rule, family_of ends.0 ends.1) d.groups,
  row_count-add_row r rule d.actual,
  b r,
)

detail_line-Balanced :
    (line : Text) (found : Option (List Text)) (d : Detail) {next : Detail}
    → detail_line line found d ≡ ok next
    → Balanced d
    → Balanced next
detail_line-Balanced line none d h b = subst Balanced (ok_inj h) b
detail_line-Balanced line (some g) d h b =
    let (ends, _, h1) = >>=-eq-ok (last_two (words line)) _ h in
    subst Balanced (ok_inj h1) (add_detail-Balanced line (first_group g) ends d b)

details-Balanced :
    (lines : List Text) (d : Detail) {end : Detail}
    → details lines d ≡ ok end
    → Balanced d
    → Balanced end
unfolding details
details-Balanced [] d h b = subst Balanced (ok_inj h) b
details-Balanced (line ∷ lines) d h b =
    let (next, h1, h2) = >>=-eq-ok (detail_line line (groups_at detail_re line) d) _ h in
    details-Balanced lines next h2 (detail_line-Balanced line (groups_at detail_re line) d h1 b)

-- For every rule, the counts of its families add up to the number of its detail rows.
pub details-sum_rule :
    (lines : List Text) {d : Detail}
    → details lines no_rows ≡ ok d
    → (r : Text) → sum_rule r d.groups ≡ row_count r d.actual
unfolding row_count
details-sum_rule lines h = details-Balanced lines no_rows h (λ r. refl)

among-insert_name :
    (r t : Text) (ss : List Text) → among r (insert_name t ss) ≡ (text_eq r t || among r ss)
unfolding among insert_name
among-insert_name r t [] = refl
among-insert_name r t (s ∷ ss) = ground (arith, among-insert_name r t ss)

among-sort_names : (r : Text) (ss : List Text) → among r (sort_names ss) ≡ among r ss
unfolding sort_names among
among-sort_names r [] = refl
among-sort_names r (s ∷ ss) =
    among-insert_name r s (sort_names ss) ∙ ap (λ b. text_eq r s || b) (among-sort_names r ss)

among-union : (r : Text) (ss ts : List Text) → among r (union ss ts) ≡ (among r ss || among r ts)
unfolding union among
among-union r [] ts = refl
among-union r (s ∷ ss) ts = elim (Bool-cases (among s (union ss ts))) [
  | inr new ↦ rw (union, new) (ground (arith, among-union r ss ts))
  | inl old ↦ elim (Bool-cases (text_eq r s)) [
    | inr other ↦ rw (union, old) (rw other (among-union r ss ts))
    | inl same ↦ rw (union, old, same) (rw (text_eq→eq r s same) old)
  ]
]

row_count-absent :
    (r : Text) (rows : Rows) → among r (row_names rows) ≡ false → row_count r rows ≡ 0
unfolding row_count among
row_count-absent r [] h = refl
row_count-absent r ((q, n) ∷ rows) h =
    let (other, rest) = or-eq-false (text_eq r q) (among r (row_names rows)) h in
    rw (row_count, other) (row_count-absent r rows rest)

differing-nil :
    (actual expected : Rows) (rs : List Text)
    → differing actual expected rs ≡ []
    → (r : Text) → among r rs ≡ true
    → row_count r actual ≡ row_count r expected
unfolding differing among
differing-nil actual expected [] h r found = cc found
differing-nil actual expected (q ∷ rs) h r found =
    elim (Bool-cases (row_count q actual == row_count q expected)) [
      | inr off ↦ (let g = rw (differing, off) at h in cc g)
      | inl same ↦ elim (Bool-cases (text_eq r q)) [
        | inr other ↦
            differing-nil actual expected rs (rw (differing, same) at h) r (rw other at found)
        | inl this ↦
            rw (text_eq→eq r q this) ((==_iff (row_count q actual) (row_count q expected)).0 same)
      ]
    ]

nil-differing :
    (actual expected : Rows) (rs : List Text)
    → ((r : Text) → row_count r actual ≡ row_count r expected)
    → differing actual expected rs ≡ []
unfolding differing
nil-differing actual expected [] h = refl
nil-differing actual expected (q ∷ rs) h =
    let same = (==_iff (row_count q actual) (row_count q expected)).1 (h q) in
    rw (differing, same) (nil-differing actual expected rs h)

counts_agree-eq :
    (actual expected : Rows) (rs : List Text)
    → counts_agree actual expected rs ≡ true
    → (r : Text) → among r rs ≡ true
    → row_count r actual ≡ row_count r expected
unfolding counts_agree among
counts_agree-eq actual expected [] h r found = cc found
counts_agree-eq actual expected (q ∷ rs) h r found =
    let (here, rest) = and-eq-true _ _ h in
    elim (Bool-cases (text_eq r q)) [
      | inl this ↦
          rw (text_eq→eq r q this) ((==_iff (row_count q actual) (row_count q expected)).0 here)
      | inr other ↦ counts_agree-eq actual expected rs rest r (rw other at found)
    ]

eq-counts_agree :
    (actual expected : Rows) (rs : List Text)
    → ((r : Text) → row_count r actual ≡ row_count r expected)
    → counts_agree actual expected rs ≡ true
unfolding counts_agree
eq-counts_agree actual expected [] h = refl
eq-counts_agree actual expected (q ∷ rs) h =
    let same = (==_iff (row_count q actual) (row_count q expected)).1 (h q) in
    rw (same) (eq-counts_agree actual expected rs h)

-- Counts that are the same wherever a rule is named are the same for every rule.
named-everywhere :
    (actual expected : Rows)
    → ((r : Text) → among r (row_names actual) ≡ true → row_count r actual ≡ row_count r expected)
    → ((r : Text) → among r (row_names expected) ≡ true → row_count r actual ≡ row_count r expected)
    → (r : Text) → row_count r actual ≡ row_count r expected
named-everywhere actual expected f g r = elim (Bool-cases (among r (row_names actual))) [
  | inl known ↦ f r known
  | inr absent ↦ elim (Bool-cases (among r (row_names expected))) [
    | inl known ↦ g r known
    | inr absent' ↦ row_count-absent r actual absent ∙ sym (row_count-absent r expected absent')
  ]
]

-- A rule of either counter is in the union, which the warning goes through.
differing-everywhere :
    (actual expected : Rows)
    → differing actual expected (sort_names (union (row_names expected) (row_names actual))) ≡ []
    → (r : Text) → row_count r actual ≡ row_count r expected
differing-everywhere actual expected h =
    let names = union (row_names expected) (row_names actual) in
    let listed : (r : Text) → among r names ≡ true → row_count r actual ≡ row_count r expected =
      λ r known.
        differing-nil actual expected (sort_names names) h r (among-sort_names r names ∙ known) in
    named-everywhere actual expected
      (λ r known.
        listed r (among-union r (row_names expected) (row_names actual) ∙ ground (arith, known)))
      (λ r known.
        listed r (among-union r (row_names expected) (row_names actual) ∙ ground (arith, known)))

-- There is nothing to warn of exactly if every rule has as many detail rows as its count in the
-- summary says, where a rule that is missing counts 0.
pub incomplete_iff :
    (actual expected : Rows)
    → (incomplete actual expected ≡ []) ↔ ((r : Text) → row_count r actual ≡ row_count r expected)
unfolding incomplete
incomplete_iff actual expected = (
  λ h. elim (Bool-cases (counters_eq actual expected)) [
    | inl same ↦
        let (left, right) = and-eq-true _ _ same in
        named-everywhere actual expected (counts_agree-eq actual expected (row_names actual) left)
          (counts_agree-eq actual expected (row_names expected) right)
    | inr other ↦ differing-everywhere actual expected (rw (incomplete, other) at h)
  ],
  λ h.
      let left = eq-counts_agree actual expected (row_names actual) h in
      let right = eq-counts_agree actual expected (row_names expected) h in
      rw (incomplete, left, right) refl,
)
