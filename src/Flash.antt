-- ===== src/Flash.antt =====
-- scripts/check_flash_layout.py: the QSPI partition budget and the measured artifacts.
pub mod Layout
pub mod Assets
use pipelined_core.Common.{
  ℕ, zero, suc, ◌+◌, Bool, true, false, not, ◌&&◌, ◌||◌, Option, none, some, List, [], ◌∷◌, ◌++◌,
  ltb, ◌==◌, if◌then◌else◌, Result, ok, err, ◌>>=◌, ◌>>◌, raise_if, or_raise, map,
}
use mathlib.Core.Option
use pipelined_core.Common.Int.{ℤ, pos, negsuc, ◌+ℤ◌, ◌-ℤ◌, ltz, eqz}
use pipelined_core.Common.Text.{Text, text_eq, codes}

pub record Region : Type 0 where
  pub name : Text
  pub offset : ℤ
  pub capacity : ℤ

pub record FlashLayout : Type 0 where
  pub flash_bytes : ℤ
  pub minimum_spare_bytes : ℤ
  pub regions : List Region

-- The ValueErrors of `check_layout`.
pub data Error : Type 0 where
  invalid_region : Text → Error
  exceeds_flash : Text → Error
  only_spare : ℤ → ℤ → Error

-- `name in seen`
abbrev pub among : Text → List Text → Bool
among name [] = false
among name (n ∷ ns) = text_eq name n || among name ns

-- The `for` loop, with `end` and `seen`; its result is the last `end`.
unfoldable pub check_regions : ℤ → List Region → ℤ → List Text → Result Error ℤ
check_regions flash_bytes [] end seen = ok end
check_regions flash_bytes (region ∷ regions) end seen =
    let rest =
      check_regions flash_bytes regions (region.offset +ℤ region.capacity) (region.name ∷ seen) in
    raise_if
      (among region.name seen || (not (eqz region.offset end) || not (ltz (pos 0) region.capacity)))
      (invalid_region region.name)
    >> (raise_if (ltz flash_bytes (region.offset +ℤ region.capacity)) (exceeds_flash region.name)
        >> rest)

unfoldable pub check_layout : FlashLayout → Result Error ℤ
unfolding check_regions
check_layout layout = check_regions layout.flash_bytes layout.regions (pos 0) [] >>= λ end.
    let spare = layout.flash_bytes -ℤ end in
    raise_if (ltz spare layout.minimum_spare_bytes) (only_spare spare layout.minimum_spare_bytes)
    >> ok spare

abbrev pub manifest : Text
manifest = codes "manifest"

-- What `main` prints, by the values that it shows; `fail_*` go to stderr.
pub data Line : Type 0 where
  flash_line : (flash_bytes reserved spare : ℤ) → Line
  region_line : Region → Line
  budget_only : Line
  expected_assignment : Text → Line
  unknown_asset : Text → Line
  need_exactly : List Text → Line
  fail_missing : (name path : Text) → Line
  fail_size : (name : Text) (size : ℕ) (capacity : ℤ) → Line
  pass : (name : Text) (size : ℕ) (capacity : ℤ) → Line
  all_fit : Line
  failure : Line

-- The `regions` dictionary: of equal names the last one stays.
abbrev pub region_of : Text → List Region → Option Region
region_of name [] = none
region_of name (region ∷ regions) = elim (region_of name regions) [
  | some found ↦ some found
  | none ↦ if text_eq name region.name then some region else none
]

-- `entry.split("=", 1)`, where the entry has a "=".
abbrev pub split_entry : Text → Option (Text × Text)
split_entry [] = none
split_entry (c ∷ entry) =
    if c == 61
    then some ([], entry)
    else Option.map (λ parts. (c ∷ parts.0, parts.1)) (split_entry entry)

abbrev pub is_some : {A : Type 0} → Option A → Bool
is_some none = false
is_some (some a) = true

-- An entry of the dictionary of assets: the name and the path.
abbrev pub Asset : Type 0
Asset = Text × Text

abbrev pub asset_names : List Asset → List Text
asset_names = map (λ asset. asset.0)

-- The loop over `args.asset`, with the assets so far; an `err` is a `parser.error`.
unfoldable pub collect : List Region → List Text → List Asset → Result Line (List Asset)
collect regions [] assets = ok assets
collect regions (entry ∷ entries) assets =
    or_raise (split_entry entry) (expected_assignment entry) >>= λ parts.
    raise_if
      (not (is_some (region_of parts.0 regions))
        || (text_eq parts.0 manifest || among parts.0 (asset_names assets)))
      (unknown_asset parts.0)
    >> collect regions entries (assets ++ (parts ∷ []))

-- `set(regions) - {"manifest"}`
abbrev pub required : List Region → List Text
required [] = []
required (region ∷ regions) =
    if text_eq region.name manifest then required regions else region.name ∷ required regions

abbrev pub subset : List Text → List Text → Bool
subset [] ns = true
subset (m ∷ ms) ns = among m ns && subset ms ns

-- The loop over the assets: what it prints, and `failed`.
unfoldable pub measure_assets : (Text → Option ℕ) → List Region → List Asset → List Line × Bool
measure_assets file_size regions [] = ([], false)
measure_assets file_size regions ((name, path) ∷ assets) =
    let (lines, failed) = measure_assets file_size regions assets in
    elim (file_size path) [
      | none ↦ (fail_missing name path ∷ lines, true)
      | some size ↦ elim (region_of name regions) [
        -- never so: `collect` has looked the name up
        | none ↦ (failure ∷ lines, true)
        | some region ↦
            if size == 0 || ltz region.capacity (pos size)
            then (fail_size name size region.capacity ∷ lines, true)
            else (pass name size region.capacity ∷ lines, failed)
      ]
    ]

-- `main` behind the reading of the layout and the arguments: the lines and the exit status.
-- `file_size` is the size of a path that is a file.
unfoldable pub main : (Text → Option ℕ) → FlashLayout → List Text → List Line × ℕ
unfolding check_layout collect measure_assets
main file_size layout entries = elim (check_layout layout) [
  | err e ↦ (failure ∷ [], 1)
  | ok spare ↦
      let budget =
        flash_line layout.flash_bytes (layout.flash_bytes -ℤ spare) spare
        ∷ map region_line layout.regions in
      elim entries [
        | [] ↦ (budget ++ (budget_only ∷ []), 0)
        | entry ∷ others ↦ elim (collect layout.regions (entry ∷ others) []) [
          | err usage ↦ (budget ++ (usage ∷ []), 2)
          | ok assets ↦
              if subset (asset_names assets) (required layout.regions)
                && subset (required layout.regions) (asset_names assets)
              then (let (lines, failed) = measure_assets file_size layout.regions assets in
                  if failed then (budget ++ lines, 1) else (budget ++ (lines ++ (all_fit ∷ [])), 0))
              else (budget ++ (need_exactly (required layout.regions) ∷ []), 2)
        ]
      ]
]
