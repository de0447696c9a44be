-- ===== src/Coverage/Exact.antt =====
-- The bins that the counts of a simulation have.
use pipelined_core.Common.{
  ℕ, Bool, true, false, ◌||◌, List, [], ◌∷◌, ◌++◌, Bool-cases, or-eq-false, and-eq-true, ◌≡◌, inl,
  inr, refl, sym, ◌∙◌, arith,
}
use pipelined_core.Common.Text.{text_eq→eq, text_eq_refl}
use pipelined_core.Coverage.Keys.{Key, key_eq, has_key, add_keys, Counts, bump, count_keys}

pub key_eq_refl : (k : Key) → key_eq k k ≡ true
key_eq_refl k = rw (text_eq_refl k.0, text_eq_refl k.1) refl

pub key_eq→eq : (j k : Key) → key_eq j k ≡ true → j ≡ k
key_eq→eq j k h =
    let (g, n) = and-eq-true _ _ h in λ i. (text_eq→eq j.0 k.0 g i, text_eq→eq j.1 k.1 n i)

pub key_eq_comm : (j k : Key) → key_eq j k ≡ key_eq k j
key_eq_comm j k = elim (Bool-cases (key_eq j k)) [
  | inl same ↦ rw (key_eq→eq j k same) refl
  | inr other ↦ elim (Bool-cases (key_eq k j)) [
    | inr other' ↦ other ∙ sym other'
    | inl same ↦
        let e : key_eq j j ≡ false = rw (key_eq→eq k j same) at other in
        (let g = sym (key_eq_refl j) ∙ e in cc g)
  ]
]

-- No key stands in the list twice.
abbrev pub Distinct : List Key → Type 0
Distinct [] = Unit
Distinct (k ∷ ks) = (has_key k ks ≡ false) × Distinct ks

pub has_key-bump :
    (i k : Key) (n : ℕ) (cs : Counts)
    → has_key i (count_keys (bump k n cs)) ≡ (has_key i (count_keys cs) || key_eq i k)
unfolding has_key bump
has_key-bump i k n [] = ground arith
has_key-bump i k n ((j, m) ∷ cs) = elim (Bool-cases (key_eq j k)) [
  | inl same ↦ rw (bump, same) (rw (sym (key_eq→eq j k same)) (ground arith))
  | inr other ↦ rw (bump, other) (ground (arith, has_key-bump i k n cs))
]

bump-Distinct :
    (k : Key) (n : ℕ) (cs : Counts) → Distinct (count_keys cs) → Distinct (count_keys (bump k n cs))
unfolding has_key bump
bump-Distinct k n [] d = (refl, tt)
bump-Distinct k n ((j, m) ∷ cs) d = elim (Bool-cases (key_eq j k)) [
  | inl same ↦ rw (bump, same) d
  | inr other ↦
      rw (bump, other) (rw (has_key-bump j k n cs, d.0, other) refl, bump-Distinct k n cs d.1)
]

has_key-snoc : (i k : Key) (ks : List Key) → has_key i (ks ++ k ∷ []) ≡ (has_key i ks || key_eq i k)
unfolding has_key
has_key-snoc i k [] = ground arith
has_key-snoc i k (j ∷ ks) = ground (arith, has_key-snoc i k ks)

snoc-Distinct :
    (k : Key) (ks : List Key) → has_key k ks ≡ false → Distinct ks → Distinct (ks ++ k ∷ [])
unfolding has_key
snoc-Distinct k [] h d = (refl, tt)
snoc-Distinct k (j ∷ ks) h d =
    let (apart, rest) = or-eq-false (key_eq k j) (has_key k ks) h in
    (rw (has_key-snoc j k ks, d.0, key_eq_comm j k, apart) refl, snoc-Distinct k ks rest d.1)

pub add_keys-Distinct : (ks more : List Key) → Distinct ks → Distinct (add_keys ks more)
unfolding add_keys
add_keys-Distinct ks [] d = d
add_keys-Distinct ks (k ∷ more) d = elim (Bool-cases (has_key k ks)) [
  | inl old ↦ rw (add_keys, old) (add_keys-Distinct ks more d)
  | inr new ↦ rw (add_keys, new) (add_keys-Distinct (ks ++ k ∷ []) more (snoc-Distinct k ks new d))
]

or_left : (a b : Bool) → b ≡ false → (a || b) ≡ true → a ≡ true
or_left a b h k = ground arith

-- The keys of the counts so far are bins of the model, and none stands twice.
pub record Recorded (expected : List Key) (counts : Counts) : Type 0 where
  pub distinct : Distinct (count_keys counts)
  pub known : (k : Key) → has_key k (count_keys counts) ≡ true → has_key k expected ≡ true

pub bump-Recorded :
    (expected : List Key) (k : Key) (n : ℕ) (counts : Counts)
    → has_key k expected ≡ true
    → Recorded expected counts
    → Recorded expected (bump k n counts)
bump-Recorded expected k n counts h r = record {
  distinct = bump-Distinct k n counts r.distinct;
  known = λ i found. elim (Bool-cases (key_eq i k)) [
    | inl same ↦ rw (key_eq→eq i k same) h
    | inr other ↦ r.known i (
        (let g = sym (has_key-bump i k n counts) ∙ found in
          or_left (has_key i (count_keys counts)) (key_eq i k) other g))
  ];
}
