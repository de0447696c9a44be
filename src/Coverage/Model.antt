-- ===== src/Coverage/Model.antt =====
-- The bins that the SystemVerilog coverage model declares.
use pipelined_core.Common.{
  ℕ, Bool, true, false, ◌||◌, none, some, List, [], ◌∷◌, ◌++◌, map, any, if◌then◌else◌, Result, ok,
  err,
}
use pipelined_core.Common.Bytes.{find}
use pipelined_core.Common.Text.{Text, codes, text_eq}
use pipelined_core.Regex.{
  Re, lit, star, lazy, group, plus, ◌⨾◌, is_space, is_word, find_all, search_all,
}
use pipelined_core.Coverage.Keys.{Key, add_keys}

-- The errors of the script: ValueErrors, and the KeyError of a missing field.
pub data Error : Type 0 where
  no_bins : Error
  malformed_record : Error
  malformed_field : Error
  outside_partition : Error
  unexpected_bin : Key → Error
  missing_bins : ℕ → Error
  no_files : Error
  key_error : Text → Error

abbrev anything : ℕ → Bool
anything c = true

-- `covergroup (\w+)_cg;(.*?)endgroup`
abbrev pub group_re : Re
group_re =
    lit (codes "covergroup ")
    ⨾ group (plus is_word)
    ⨾ lit (codes "_cg;")
    ⨾ group (lazy anything)
    ⨾ lit (codes "endgroup")

-- `(\w+): coverpoint \w+ \{(.*?)\n        \}`
abbrev pub point_re : Re
point_re =
    group (plus is_word)
    ⨾ lit (codes ": coverpoint ")
    ⨾ plus is_word
    ⨾ lit (codes " {")
    ⨾ group (lazy anything)
    ⨾ lit (10 ∷ codes "        }")

-- `bins (\w+)\s*=`; `find_all` adds the `\b` in front.
abbrev pub bins_re : Re
bins_re = lit (codes "bins ") ⨾ group (plus is_word) ⨾ star is_space ⨾ lit (codes "=")

-- The groups of one match: the first, and the second.
abbrev pub first_group : List Text → Text
first_group [] = []
first_group (t ∷ ts) = t

abbrev pub second_group : List Text → Text
second_group [] = []
second_group (t ∷ ts) = first_group ts

abbrev pub bins_of : Text → List Text
bins_of body = map first_group (find_all bins_re false 0 body)

abbrev pub is_cross : Text → Bool
is_cross body = elim (find (codes "scenario: cross") body 0) [ none ↦ false | some _ ↦ true ]

-- `'_x_'.join(values)` for each of `product(*dimensions)`, where no dimension has been joined if
-- `first`.
abbrev prefixed : Bool → Text → Text → Text
prefixed true value rest = value
prefixed false value rest = value ++ (codes "_x_" ++ rest)

abbrev pub is_empty : {A : Type 0} → List A → Bool
is_empty [] = true
is_empty (_ ∷ _) = false

abbrev pub each_value : List Text → Bool → List Text → List Text
each_value [] last rests = []
each_value (value ∷ values) last rests =
    map (prefixed last value) rests ++ each_value values last rests

unfoldable pub joined_products : List (List Text) → List Text
joined_products [] = [] ∷ []
joined_products (dimension ∷ dimensions) =
    each_value dimension (is_empty dimensions) (joined_products dimensions)

abbrev dimensions_of : Text → List (List Text)
dimensions_of body = map (λ point. bins_of (second_group point)) (search_all point_re 0 body)

-- The dictionaries of both functions, by group: a later group of the same name replaces an earlier.
abbrev pub Groups : Type 0
Groups = List (Text × List Text)

unfoldable pub put_group : Text → List Text → Groups → Groups
put_group g bins [] = (g, bins) ∷ []
put_group g bins ((h, old) ∷ groups) =
    let rest = put_group g bins groups in
    if text_eq g h then (h, bins) ∷ groups else (h, old) ∷ rest

unfoldable pub cross_groups : List (List Text) → Groups → Groups
unfolding put_group joined_products
cross_groups [] groups = groups
cross_groups (m ∷ ms) groups = cross_groups ms (
    if is_cross (second_group m)
    then put_group (first_group m) (joined_products (dimensions_of (second_group m))) groups
    else groups)

-- `cross_partitions`, for the text of the model
unfoldable pub cross_partitions : Text → Groups
unfolding cross_groups
cross_partitions model = cross_groups (search_all group_re 0 model) []

unfoldable pub plain_groups : List (List Text) → Groups → Groups
unfolding put_group
plain_groups [] groups = groups
plain_groups (m ∷ ms) groups = plain_groups ms (
    if is_cross (second_group m)
    then groups
    else put_group (first_group m) (bins_of (second_group m)) groups)

abbrev pub cross_group : Text
cross_group = codes "hazard_trap_stage"

abbrev pub group_keys : Groups → List Key
group_keys [] = []
group_keys ((g, bins) ∷ groups) = map (λ name. (g, name)) bins ++ group_keys groups

abbrev pub cross_keys : Groups → List Key
cross_keys [] = []
cross_keys ((g, bins) ∷ groups) = map (λ name. (cross_group, name)) bins ++ cross_keys groups

-- `expected_bins`, for the text of the model
unfoldable pub expected_bins : Text → Result Error (List Key)
unfolding plain_groups cross_partitions
expected_bins model =
    let groups = plain_groups (search_all group_re 0 model) [] in
    if is_empty groups || any (λ entry. is_empty entry.1) groups
    then err no_bins
    else ok (add_keys (add_keys [] (group_keys groups)) (cross_keys (cross_partitions model)))
