-- ===== src/Coverage/Totals.antt =====
-- The totals of a report and of its groups.
use pipelined_core.Common.{
  ℕ, suc, ◌+◌, Bool, true, false, ◌||◌, List, [], ◌∷◌, length, ltb, if◌then◌else◌, Bool-cases, ◌≡◌,
  inl, inr, refl, sym, ap, ◌∙◌, arith,
}
use pipelined_core.Common.Text.{Text, text_eq, text_eq→eq, text_eq_refl}
use pipelined_core.Coverage.Keys.{Key, Counts, count_of}
use pipelined_core.Coverage.Records.{among}
use pipelined_core.Coverage.Report.{
  Group, insert_bin, bins_in, hits, group_reports, insert_name, sort_names, group_names,
}

abbrev pub sum_total : List Group → ℕ
sum_total [] = 0
sum_total (g ∷ gs) = g.total + sum_total gs

length-insert_bin :
    (bin : Text × ℕ) (bs : List (Text × ℕ)) → length (insert_bin bin bs) ≡ suc (length bs)
unfolding insert_bin
length-insert_bin bin [] = refl
length-insert_bin bin (b ∷ bs) = ground (arith, length-insert_bin bin bs)

hits-insert_bin :
    (bin : Text × ℕ) (bs : List (Text × ℕ))
    → hits (insert_bin bin bs) ≡ (if ltb 0 bin.1 then 1 else 0) + hits bs
unfolding insert_bin hits
hits-insert_bin bin [] = refl
hits-insert_bin bin (b ∷ bs) = ground (arith, hits-insert_bin bin bs)

-- How often a name stands in a list.
abbrev pub occurrences : Text → List Text → ℕ
occurrences t [] = 0
occurrences t (s ∷ ss) = (if text_eq t s then 1 else 0) + occurrences t ss

occurrences-insert_name :
    (t s : Text) (ss : List Text) → occurrences t (insert_name s ss) ≡ occurrences t (s ∷ ss)
unfolding insert_name
occurrences-insert_name t s [] = refl
occurrences-insert_name t s (r ∷ ss) = ground (arith, occurrences-insert_name t s ss)

occurrences-sort_names :
    (t : Text) (ss : List Text) → occurrences t (sort_names ss) ≡ occurrences t ss
unfolding sort_names
occurrences-sort_names t [] = refl
occurrences-sort_names t (s ∷ ss) =
    omega (arith, occurrences-insert_name t s (sort_names ss), occurrences-sort_names t ss)

occurrences-among : (t : Text) (ss : List Text) → among t ss ≡ false → occurrences t ss ≡ 0
unfolding among
occurrences-among t [] h = refl
occurrences-among t (s ∷ ss) h = ground (arith, occurrences-among t ss)

-- Whether a key of the list has the group.
abbrev pub in_group : Text → List Key → Bool
in_group t [] = false
in_group t (k ∷ ks) = text_eq t k.0 || in_group t ks

among-group_names : (t : Text) (ks : List Key) → among t (group_names ks) ≡ in_group t ks
unfolding among group_names
among-group_names t [] = refl
among-group_names t (k ∷ ks) = elim (Bool-cases (among k.0 (group_names ks))) [
  | inr new ↦ rw new (ap (λ b. text_eq t k.0 || b) (among-group_names t ks))
  | inl old ↦ elim (Bool-cases (text_eq t k.0)) [
    | inl same ↦ rw (old, same) (rw (text_eq→eq t k.0 same) old)
    | inr other ↦ rw (old, other) (among-group_names t ks)
  ]
]

occurrences-group_names :
    (t : Text) (ks : List Key) → occurrences t (group_names ks) ≡ (if in_group t ks then 1 else 0)
unfolding group_names
occurrences-group_names t [] = refl
occurrences-group_names t (k ∷ ks) = elim (Bool-cases (among k.0 (group_names ks))) [
  | inr new ↦ elim (Bool-cases (text_eq t k.0)) [
    | inl same ↦
        let none_yet : occurrences t (group_names ks) ≡ 0 =
          occurrences-among t (group_names ks) (rw (text_eq→eq t k.0 same) new) in
        rw (new, same, none_yet) refl
    | inr other ↦ rw (new, other) (omega (arith, occurrences-group_names t ks))
  ]
  | inl old ↦ elim (Bool-cases (text_eq t k.0)) [
    | inl same ↦
        let in_rest : in_group t ks ≡ true =
          sym (among-group_names t ks) ∙ rw (text_eq→eq t k.0 same) old in
        rw (old, same, occurrences-group_names t ks, in_rest) refl
    | inr other ↦ rw (old, other) (occurrences-group_names t ks)
  ]
]

abbrev pub sum_hit : List Group → ℕ
sum_hit [] = 0
sum_hit (g ∷ gs) = g.hit + sum_hit gs

-- 1 for a key that has been counted.
abbrev pub hit_one : Counts → Key → ℕ
hit_one counts k = if ltb 0 (count_of k counts) then 1 else 0

abbrev pub hit_keys : Counts → List Key → ℕ
hit_keys counts [] = 0
hit_keys counts (k ∷ ks) = hit_one counts k + hit_keys counts ks

module _ (counts : Counts) where
  sum_total-cons :
      (gs : List Text) (k : Key) (ks : List Key)
      → sum_total (group_reports (k ∷ ks) counts gs)
        ≡ occurrences k.0 gs + sum_total (group_reports ks counts gs)
  unfolding group_reports bins_in
  sum_total-cons [] k ks = refl
  sum_total-cons (g ∷ gs) k ks = elim (Bool-cases (text_eq k.0 g)) [
    | inl e ↦
        rw (bins_in, e)
          (omega (
            arith,
            length-insert_bin (k.1, count_of k counts) (bins_in g ks counts),
            sum_total-cons gs k ks,
          ))
    | inr e ↦ rw (bins_in, e) (omega (arith, sum_total-cons gs k ks))
  ]

  hits-bins_in :
      (g : Text) (k : Key) (ks : List Key)
      → hits (bins_in g (k ∷ ks) counts)
        ≡ (if text_eq k.0 g then hit_one counts k else 0) + hits (bins_in g ks counts)
  unfolding bins_in hits
  hits-bins_in g k ks = elim (Bool-cases (text_eq k.0 g)) [
    | inl e ↦ rw (bins_in, e) (hits-insert_bin (k.1, count_of k counts) (bins_in g ks counts))
    | inr e ↦ rw (bins_in, e) (omega arith)
  ]

  sum_hit-cons :
      (gs : List Text) (k : Key) (ks : List Key)
      → sum_hit (group_reports (k ∷ ks) counts gs)
        ≡ (if ltb 0 (count_of k counts) then occurrences k.0 gs else 0)
          + sum_hit (group_reports ks counts gs)
  unfolding group_reports
  sum_hit-cons [] k ks = ground arith
  sum_hit-cons (g ∷ gs) k ks = ground (arith, hits-bins_in g k ks, sum_hit-cons gs k ks)

  -- A list of groups in which each key's group stands once.
  abbrev pub Covers : List Text → List Key → Type 0
  Covers gs ks = (t : Text) → in_group t ks ≡ true → occurrences t gs ≡ 1

  Covers-tail : (gs : List Text) (k : Key) (ks : List Key) → Covers gs (k ∷ ks) → Covers gs ks
  Covers-tail gs k ks h t inside = h t (rw inside (ground arith))

  Covers-head :
      (gs : List Text) (k : Key) (ks : List Key) → Covers gs (k ∷ ks) → occurrences k.0 gs ≡ 1
  Covers-head gs k ks h = h k.0 (rw (text_eq_refl k.0) refl)

  none_total : (gs : List Text) → sum_total (group_reports [] counts gs) ≡ 0
  unfolding group_reports bins_in
  none_total [] = refl
  none_total (g ∷ gs) = omega (arith, none_total gs)

  none_hit : (gs : List Text) → sum_hit (group_reports [] counts gs) ≡ 0
  unfolding group_reports bins_in hits
  none_hit [] = refl
  none_hit (g ∷ gs) = omega (arith, none_hit gs)

  pub sum_total-length :
      (gs : List Text) (ks : List Key)
      → Covers gs ks
      → sum_total (group_reports ks counts gs) ≡ length ks
  sum_total-length gs [] h = none_total gs
  sum_total-length gs (k ∷ ks) h = omega (
    arith,
    sum_total-cons gs k ks,
    Covers-head gs k ks h,
    sum_total-length gs ks (Covers-tail gs k ks h),
  )

  pub sum_hit-keys :
      (gs : List Text) (ks : List Key)
      → Covers gs ks
      → sum_hit (group_reports ks counts gs) ≡ hit_keys counts ks
  sum_hit-keys gs [] h = none_hit gs
  sum_hit-keys gs (k ∷ ks) h = ground (
    arith,
    sum_hit-cons gs k ks,
    Covers-head gs k ks h,
    sum_hit-keys gs ks (Covers-tail gs k ks h),
  )

  pub Covers-group_names : (ks : List Key) → Covers (sort_names (group_names ks)) ks
  Covers-group_names ks t inside =
      occurrences-sort_names t (group_names ks) ∙ occurrences-group_names t ks ∙ rw inside refl
