-- ===== src/Coverage/Reading.antt =====
-- What `read_counts` and the merge of its results keep to.
use pipelined_core.Common.{
  Bool, true, false, not, Option, none, some, List, [], ◌∷◌, Bool-cases, ok, ◌>>=◌, >>=-eq-ok,
  raise_if-eq-ok, or_raise, not-eq-false, ok_inj, ap, ◌∙◌, ◌+◌, ℕ, arith, if◌then◌else◌,
  or_raise-eq-ok, ◌≡◌, inl, inr, refl, subst, sym,
}
use pipelined_core.Common.Text.{Text, codes, int_10}
use pipelined_core.Common.Text.Lines.{splitlines, startswith}
use pipelined_core.Regex.{fullmatch}
use pipelined_core.Coverage.Keys.{Key, key_eq, has_key, Counts, bump, count_keys, count_of}
use pipelined_core.Coverage.Exact.{Recorded, bump-Recorded, Distinct, key_eq→eq}
use pipelined_core.Coverage.Merge.{count_of-bump}
use pipelined_core.Coverage.Model.{
  Groups, first_group, second_group, malformed_record, unexpected_bin,
}
use pipelined_core.Coverage.Records.{
  Fields, record_re, parse_fields, record_key, count_record, read_line, read_lines, missing_keys,
  checked_counts, read_counts,
}

checked_counts-eq-ok :
    (missing : List Key) (read : Counts) {counts : Counts}
    → checked_counts missing read ≡ ok counts
    → (missing ≡ []) × (read ≡ counts)
checked_counts-eq-ok [] read h = (refl, ok_inj h)
checked_counts-eq-ok (k ∷ ks) read h = cc

not-eq-true : (b : Bool) → not b ≡ true → b ≡ false
not-eq-true b h = ground arith

Bool-ext : {a b : Bool} → (a ≡ true → b ≡ true) → (b ≡ true → a ≡ true) → a ≡ b
Bool-ext {a = true} {b = b} f g = sym (f refl)
Bool-ext {a = false} {b = true} f g = g refl
Bool-ext {a = false} {b = false} f g = refl

module _ (crosses : Groups) (expected : List Key) where
  count_record-Recorded :
      (counts : Counts) (number : Text) (found : Option Key) {counts' : Counts}
      → count_record expected counts number found ≡ ok counts'
      → Recorded expected counts
      → Recorded expected counts'
  count_record-Recorded counts number none h r = subst (Recorded expected) (ok_inj h) r
  count_record-Recorded counts number (some key) h r =
      let (is_known, h1) =
        raise_if-eq-ok (not (has_key key expected)) (unexpected_bin key)
          {k = or_raise (int_10 number) malformed_record >>= λ n. ok (bump key n counts)} h in
      let (n, _, h2) = >>=-eq-ok (or_raise (int_10 number) malformed_record) _ h1 in
      subst (Recorded expected) (ok_inj h2)
        (bump-Recorded expected key n counts (not-eq-false _ is_known) r)

  read_line-Recorded :
      (line : Text) (counts : Counts) {counts' : Counts}
      → read_line crosses expected line counts ≡ ok counts'
      → Recorded expected counts
      → Recorded expected counts'
  unfolding read_line
  read_line-Recorded line counts {counts' = counts'} h r =
      elim (Bool-cases (not (startswith (codes "C ") line))) [
        | inl other ↦ subst (Recorded expected) (ok_inj (rw (read_line, other) at h)) r
        | inr is_record ↦
            let (groups, _, h1) =
              >>=-eq-ok (or_raise (fullmatch record_re line) malformed_record) _
                (rw (read_line, is_record) at h) in
            let (fields, _, h2) = >>=-eq-ok (parse_fields (first_group groups)) _ h1 in
            let (found, _, h3) = >>=-eq-ok (record_key crosses fields) _ h2 in
            count_record-Recorded counts (second_group groups) found h3 r
      ]

  read_lines-Recorded :
      (lines : List Text) (counts : Counts) {counts' : Counts}
      → read_lines crosses expected lines counts ≡ ok counts'
      → Recorded expected counts
      → Recorded expected counts'
  unfolding read_lines
  read_lines-Recorded [] counts h r = subst (Recorded expected) (ok_inj h) r
  read_lines-Recorded (line ∷ lines) counts h r =
      let (next, e, h1) = >>=-eq-ok (read_line crosses expected line counts) _ h in
      read_lines-Recorded lines next h1 (read_line-Recorded line counts e r)

  missing_keys-nil :
      (ks keys : List Key) (k : Key)
      → missing_keys ks keys ≡ []
      → has_key k ks ≡ true
      → has_key k keys ≡ true
  unfolding missing_keys has_key
  missing_keys-nil [] keys k h found = cc
  missing_keys-nil (j ∷ ks) keys k h found = elim (Bool-cases (has_key j keys)) [
    | inr missing ↦ (let g = rw (missing_keys, missing) at h in cc g)
    | inl present ↦ elim (Bool-cases (key_eq k j)) [
      | inl same ↦ rw (key_eq→eq k j same) present
      | inr other ↦ missing_keys-nil ks keys k (rw (missing_keys, present) at h) (rw other at found)
    ]
  ]

  -- The counts that `read_counts` returns have exactly the expected bins as keys, each once.
  pub read_counts-Distinct :
      (content : Text) {counts : Counts}
      → read_counts crosses expected content ≡ ok counts
      → Distinct (count_keys counts)
        × ((k : Key) → has_key k (count_keys counts) ≡ has_key k expected)
  unfolding read_counts has_key
  read_counts-Distinct content {counts = counts} h =
      let (read, lines_read, h1) =
        >>=-eq-ok (read_lines crosses expected (splitlines content) []) _ h in
      let r =
        read_lines-Recorded (splitlines content) [] lines_read
          (record { distinct = tt; known = λ k found. cc found }) in
      let (complete, same) =
        checked_counts-eq-ok (missing_keys expected (count_keys read)) read h1 in
      subst
        (λ c. Distinct (count_keys c) × ((k : Key) → has_key k (count_keys c) ≡ has_key k expected))
        same
        (
          r.distinct,
          λ k. Bool-ext (r.known k) (missing_keys-nil expected (count_keys read) k complete),
        )

-- What the lines of a file count: a bin and the number of its record, for every line that is not
-- passed over.
pub data Counted (crosses : Groups) : List Text → List (Key × ℕ) → Type 0 where
  all_read : Counted crosses [] []
  other :
      {line : Text} {lines : List Text} {records : List (Key × ℕ)}
      → startswith (codes "C ") line ≡ false
      → Counted crosses lines records
      → Counted crosses (line ∷ lines) records
  skipped :
      {line : Text} {lines groups : List Text} {fields : Fields} {records : List (Key × ℕ)}
      → fullmatch record_re line ≡ some groups
      → parse_fields (first_group groups) ≡ ok fields
      → record_key crosses fields ≡ ok none
      → Counted crosses lines records
      → Counted crosses (line ∷ lines) records
  counted :
      {line : Text} {lines groups : List Text} {fields : Fields} {key : Key} {n : ℕ}
      {records : List (Key × ℕ)}
      → fullmatch record_re line ≡ some groups
      → parse_fields (first_group groups) ≡ ok fields
      → record_key crosses fields ≡ ok (some key)
      → int_10 (second_group groups) ≡ some n
      → Counted crosses lines records
      → Counted crosses (line ∷ lines) ((key, n) ∷ records)

-- The sum of the numbers of a bin.
abbrev pub total_for : Key → List (Key × ℕ) → ℕ
total_for k [] = 0
total_for k ((j, n) ∷ records) = (if key_eq j k then n else 0) + total_for k records

module _ (crosses : Groups) (expected : List Key) where
  -- The records of lines, and what they add to the counts.
  abbrev Added : List Text → Counts → Counts → Type 0
  Added lines counts counts' =
      (records : List (Key × ℕ)) × (Counted crosses lines records
        × ((k : Key) → count_of k counts' ≡ count_of k counts + total_for k records))

  count_record-Added :
      (line : Text) (lines groups : List Text) (fields : Fields) (counts next counts' : Counts)
      (found : Option Key)
      → fullmatch record_re line ≡ some groups
      → parse_fields (first_group groups) ≡ ok fields
      → record_key crosses fields ≡ ok found
      → count_record expected counts (second_group groups) found ≡ ok next
      → Added lines next counts'
      → Added (line ∷ lines) counts counts'
  count_record-Added line lines groups fields counts next counts' none m p r h
        (records, (d, sums)) =
      (
        records,
        (
          skipped m p r d,
          λ k. sums k ∙ ap (λ c. count_of k c + total_for k records) (sym (ok_inj h)),
        ),
      )
  count_record-Added line lines groups fields counts next counts' (some key) m p r h
        (records, (d, sums)) =
      let (_, h1) =
        raise_if-eq-ok (not (has_key key expected)) (unexpected_bin key)
          {k = or_raise (int_10 (second_group groups)) malformed_record >>= λ n.
            ok (bump key n counts)}
          h in
      let (n, e, h2) = >>=-eq-ok (or_raise (int_10 (second_group groups)) malformed_record) _ h1 in
      let number = or_raise-eq-ok (int_10 (second_group groups)) malformed_record e in
      (
        (key, n) ∷ records,
        (
          counted m p r number d,
          λ k.
              let step : count_of k next ≡ count_of k (bump key n counts) =
                ap (count_of k) (sym (ok_inj h2)) in
              omega (arith, sums k, step, count_of-bump k key n counts),
        ),
      )

  read_lines-Added :
      (lines : List Text) (counts : Counts) {counts' : Counts}
      → read_lines crosses expected lines counts ≡ ok counts'
      → Added lines counts counts'
  unfolding read_lines read_line
  read_lines-Added [] counts h =
      ([], (all_read, λ k. ap (count_of k) (sym (ok_inj h)) ∙ omega arith))
  read_lines-Added (line ∷ lines) counts {counts'} h =
      let (next, e, h1) = >>=-eq-ok (read_line crosses expected line counts) _ h in
      let rest = read_lines-Added lines next h1 in
      elim (Bool-cases (not (startswith (codes "C ") line))) [
        | inl plain ↦
            let same : counts ≡ next = ok_inj (rw (read_line, plain) at e) in
            let (records, (d, sums)) = rest in
            (
              records,
              (
                other (not-eq-true (startswith (codes "C ") line) plain) d,
                λ k. sums k ∙ ap (λ c. count_of k c + total_for k records) (sym same),
              ),
            )
        | inr is_record ↦
            let (groups, m, e1) =
              >>=-eq-ok (or_raise (fullmatch record_re line) malformed_record) _
                (rw (read_line, is_record) at e) in
            let (fields, p, e2) = >>=-eq-ok (parse_fields (first_group groups)) _ e1 in
            let (found, r, e3) = >>=-eq-ok (record_key crosses fields) _ e2 in
            count_record-Added line lines groups fields counts next counts' found
              (or_raise-eq-ok (fullmatch record_re line) malformed_record m) p r e3 rest
      ]

  -- The counts that `read_counts` returns have exactly the expected bins as keys, each once, and the
  -- count of a bin is the sum of the numbers in all its records in the file.
  pub read_counts-exact :
      (content : Text) {counts : Counts}
      → read_counts crosses expected content ≡ ok counts
      → (Distinct (count_keys counts)
          × ((k : Key) → has_key k (count_keys counts) ≡ has_key k expected))
        × ((records : List (Key × ℕ)) × (Counted crosses (splitlines content) records
              × ((k : Key) → count_of k counts ≡ total_for k records)))
  unfolding read_counts count_of
  read_counts-exact content {counts} h =
      let (read, lines_read, h1) =
        >>=-eq-ok (read_lines crosses expected (splitlines content) []) _ h in
      let (_, same) = checked_counts-eq-ok (missing_keys expected (count_keys read)) read h1 in
      let (records, (d, sums)) = read_lines-Added (splitlines content) [] lines_read in
      (
        read_counts-Distinct crosses expected content h,
        (records, (d, λ k. ap (count_of k) (sym same) ∙ sums k ∙ omega arith)),
      )
