-- ===== src/Coverage/Merge.antt =====
-- Merged counts.
use pipelined_core.Common.{
  ℕ, ◌+◌, true, false, List, [], ◌∷◌, ltb, if◌then◌else◌, Bool-cases, or-eq-false, ◌≡◌, inl, inr,
  refl, sym, ◌∙◌, arith,
}
use pipelined_core.Coverage.Keys.{Key, key_eq, has_key, Counts, count_of, bump, count_keys}
use pipelined_core.Coverage.Exact.{Distinct, key_eq→eq, key_eq_refl, key_eq_comm}
use pipelined_core.Coverage.Report.{merge, count_hits}
use pipelined_core.Coverage.Totals.{hit_keys}

pub count_of-bump :
    (i k : Key) (n : ℕ) (cs : Counts)
    → count_of i (bump k n cs) ≡ count_of i cs + (if key_eq k i then n else 0)
unfolding count_of bump
count_of-bump i k n [] = ground arith
count_of-bump i k n ((j, m) ∷ cs) = elim (Bool-cases (key_eq j k)) [
  | inl same ↦ rw (bump, same) (rw (key_eq→eq j k same) (ground arith))
  | inr other ↦ elim (Bool-cases (key_eq j i)) [
    | inl found ↦
        let apart : key_eq k i ≡ false = key_eq_comm k i ∙ rw (key_eq→eq j i found) at other in
        rw (bump, other) (rw (count_of, found, apart) (omega arith))
    | inr elsewhere ↦ rw (bump, other) (rw (count_of, elsewhere) (count_of-bump i k n cs))
  ]
]

count_of-absent : (k : Key) (cs : Counts) → has_key k (count_keys cs) ≡ false → count_of k cs ≡ 0
unfolding count_of has_key
count_of-absent k [] h = refl
count_of-absent k ((j, m) ∷ cs) h =
    let (apart, rest) = or-eq-false (key_eq k j) (has_key k (count_keys cs)) h in
    rw (key_eq_comm j k, apart) (count_of-absent k cs rest)

pub count_of-merge :
    (i : Key) (cs more : Counts)
    → Distinct (count_keys more)
    → count_of i (merge cs more) ≡ count_of i cs + count_of i more
unfolding count_of merge
count_of-merge i cs [] d = omega arith
count_of-merge i cs ((k, n) ∷ more) d = elim (Bool-cases (key_eq k i)) [
  | inl same ↦
      let gone : count_of i more ≡ 0 = count_of-absent i more (rw (key_eq→eq k i same) at d.0) in
      let b : count_of i (bump k n cs) ≡ count_of i cs + n = rw same at (count_of-bump i k n cs) in
      rw (count_of, same) (omega (arith, count_of-merge i (bump k n cs) more d.1, b, gone))
  | inr other ↦
      let b : count_of i (bump k n cs) ≡ count_of i cs + 0 = rw other at (count_of-bump i k n cs) in
      rw (count_of, other) (omega (arith, count_of-merge i (bump k n cs) more d.1, b))
]

-- The double count: each key of `cs`, as often as it stands in `ks`.
abbrev times : Key → List Key → ℕ
times k [] = 0
times k (j ∷ ks) = (if key_eq j k then 1 else 0) + times k ks

times-absent : (k : Key) (ks : List Key) → has_key k ks ≡ false → times k ks ≡ 0
unfolding has_key
times-absent k [] h = refl
times-absent k (j ∷ ks) h =
    let (apart, rest) = or-eq-false (key_eq k j) (has_key k ks) h in
    rw (key_eq_comm j k, apart) (omega (arith, times-absent k ks rest))

times-Distinct : (k : Key) (ks : List Key) → Distinct ks → has_key k ks ≡ true → times k ks ≡ 1
unfolding has_key
times-Distinct k [] d h = cc
times-Distinct k (j ∷ ks) d h = elim (Bool-cases (key_eq k j)) [
  | inl same ↦
      let gone : times k ks ≡ 0 = times-absent k ks (rw (sym (key_eq→eq k j same)) at d.0) in
      rw (key_eq_comm j k, same) (omega (arith, gone))
  | inr other ↦ rw (key_eq_comm j k, other) (omega (arith, times-Distinct k ks d.1 (rw other at h)))
]

hit_keys-cons :
    (k : Key) (n : ℕ) (cs : Counts) (ks : List Key)
    → has_key k (count_keys cs) ≡ false
    → hit_keys ((k, n) ∷ cs) ks ≡ (if ltb 0 n then times k ks else 0) + hit_keys cs ks
unfolding count_of
hit_keys-cons k n cs [] h = ground arith
hit_keys-cons k n cs (j ∷ ks) h = elim (Bool-cases (key_eq k j)) [
  | inl same ↦
      let same' : key_eq j k ≡ true = key_eq_comm j k ∙ same in
      let gone : count_of j cs ≡ 0 = count_of-absent j cs (rw (key_eq→eq k j same) at h) in
      ground (arith, hit_keys-cons k n cs ks h)
  | inr other ↦
      let other' : key_eq j k ≡ false = key_eq_comm j k ∙ other in
      ground (arith, hit_keys-cons k n cs ks h)
]

hit_keys-none : (ks : List Key) → hit_keys [] ks ≡ 0
unfolding count_of
hit_keys-none [] = refl
hit_keys-none (k ∷ ks) = omega (arith, hit_keys-none ks)

-- The counted bins of the totals are those of the model, each once.
pub count_hits-hit_keys :
    (cs : Counts) (ks : List Key)
    → Distinct (count_keys cs)
    → Distinct ks
    → ((k : Key) → has_key k (count_keys cs) ≡ true → has_key k ks ≡ true)
    → count_hits cs ≡ hit_keys cs ks
unfolding count_hits has_key
count_hits-hit_keys [] ks dc dk sub = sym (hit_keys-none ks)
count_hits-hit_keys ((k, n) ∷ cs) ks dc dk sub =
    let here : times k ks ≡ 1 = times-Distinct k ks dk (sub k (rw (key_eq_refl k) refl)) in
    let rest = count_hits-hit_keys cs ks dc.1 dk (λ j found. sub j (rw found (ground arith))) in
    ground (arith, hit_keys-cons k n cs ks dc.0, here, rest)
