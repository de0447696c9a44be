-- ===== src/Coverage/Records.antt =====
-- `read_counts`: the records of one simulation.
use pipelined_core.Common.{
  Bool, false, not, ◌||◌, Option, none, some, List, [], ◌∷◌, length, if◌then◌else◌, Result, ok, err,
  ◌>>=◌, ◌>>◌, raise_if, or_raise, map_result,
}
use pipelined_core.Common.Text.{Text, codes, text_eq, int_10, is_digit}
use pipelined_core.Common.Text.Lines.{
  splitlines, split_from, split_once, startswith, removeprefix, removesuffix, path_name,
}
use pipelined_core.Regex.{Re, lit, star, group, plus, ◌⨾◌, not_newline, fullmatch}
use pipelined_core.Coverage.Keys.{Key, Counts, has_key, bump, count_keys}
use pipelined_core.Coverage.Model.{
  Error, malformed_record, malformed_field, outside_partition, unexpected_bin, missing_bins,
  key_error, Groups, cross_group, first_group, second_group,
}

-- `C '(.*)' ([0-9]+)`
abbrev pub record_re : Re
record_re = lit (codes "C '") ⨾ group (star not_newline) ⨾ lit (codes "' ") ⨾ group (plus is_digit)

-- The `fields` dictionary, as the pairs in their order.
abbrev pub Fields : Type 0
Fields = List (Text × Text)

-- `fields.get(name)`: of equal names the last one counts.
unfoldable pub field : Text → Fields → Option Text
field name [] = none
field name ((n, v) ∷ fields) =
    let here = if text_eq name n then some v else none in
    elim (field name fields) [ some found ↦ some found | none ↦ here ]

abbrev behind_first : List Text → List Text
behind_first [] = []
behind_first (t ∷ ts) = ts

-- `dict(field.split('\x02', 1) for field in text.split('\x01')[1:])`
unfoldable pub parse_fields : Text → Result Error Fields
parse_fields text =
    map_result (λ part. or_raise (split_once 2 part) malformed_field)
      (behind_first (split_from 1 [] text))

abbrev pub is_text : Option Text → Text → Bool
is_text none t = false
is_text (some s) t = text_eq s t

-- `Path(fields.get('f', '')).name`
abbrev pub file_name : Option Text → Text
file_name none = path_name []
file_name (some s) = path_name s

unfoldable pub partition_of : Text → Groups → Option (List Text)
partition_of g [] = none
partition_of g ((h, bins) ∷ groups) =
    let rest = partition_of g groups in if text_eq g h then some bins else rest

unfoldable pub among : Text → List Text → Bool
among t [] = false
among t (s ∷ ts) = text_eq t s || among t ts

-- What a record of the model's covergroups counts for: its key, or `none` where it is skipped.
unfoldable pub record_key : Groups → Fields → Result Error (Option Key)
unfolding field partition_of among
record_key crosses fields =
    if not (is_text (field (codes "t") fields) (codes "covergroup"))
      || not (text_eq (file_name (field (codes "f") fields)) (codes "cpu_coverage.sv"))
    then ok none
    else (or_raise (field (codes "page") fields) (key_error (codes "page")) >>= λ page.
        let g = removesuffix (codes "_cg") (removeprefix (codes "v_covergroup/") page) in
        elim (partition_of g crosses) [
          | none ↦ or_raise (field (codes "bin") fields) (key_error (codes "bin")) >>= λ bin.
              ok (some (g, bin))
          | some bins ↦
              if not (is_text (field (codes "cross") fields) (codes "1"))
              then ok none
              else (or_raise (field (codes "bin") fields) (key_error (codes "bin")) >>= λ bin.
                  raise_if (not (among bin bins)) outside_partition >> ok (some (cross_group, bin)))
        ])

-- The end of the loop's body, for the number that the record shows.
abbrev pub count_record : List Key → Counts → Text → Option Key → Result Error Counts
count_record expected counts number none = ok counts
count_record expected counts number (some key) =
    raise_if (not (has_key key expected)) (unexpected_bin key)
    >> (or_raise (int_10 number) malformed_record >>= λ n. ok (bump key n counts))

-- A line of the file, added to the counts so far.
unfoldable pub read_line : Groups → List Key → Text → Counts → Result Error Counts
unfolding parse_fields record_key
read_line crosses expected line counts =
    if not (startswith (codes "C ") line)
    then ok counts
    else (or_raise (fullmatch record_re line) malformed_record >>= λ groups.
        parse_fields (first_group groups) >>= λ fields. record_key crosses fields >>= λ found.
        count_record expected counts (second_group groups) found)

unfoldable pub read_lines : Groups → List Key → List Text → Counts → Result Error Counts
unfolding read_line
read_lines crosses expected [] counts = ok counts
read_lines crosses expected (line ∷ lines) counts =
    read_line crosses expected line counts >>= λ next. read_lines crosses expected lines next

-- `expected - counts.keys()`
unfoldable pub missing_keys : List Key → List Key → List Key
missing_keys [] keys = []
missing_keys (k ∷ ks) keys =
    let rest = missing_keys ks keys in if has_key k keys then rest else k ∷ rest

abbrev pub checked_counts : List Key → Counts → Result Error Counts
checked_counts [] counts = ok counts
checked_counts (k ∷ ks) counts = err (missing_bins (length (k ∷ ks)))

unfoldable pub read_counts : Groups → List Key → Text → Result Error Counts
unfolding read_lines missing_keys
read_counts crosses expected content =
    read_lines crosses expected (splitlines content) [] >>= λ counts.
    checked_counts (missing_keys expected (count_keys counts)) counts
