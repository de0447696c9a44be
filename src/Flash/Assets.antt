-- ===== src/Flash/Assets.antt =====
-- What an exit status of 0 of `main` says of the measured artifacts.
use pipelined_core.Common.{
  ℕ, ◌<◌, true, false, ◌&&◌, ◌||◌, Option, some, List, [], ◌∷◌, Bool-cases, Option-cases,
  Result-cases, and-eq-true, or-eq-false, ◌≡◌, inl, inr, arith, ◌==◌, ==_iff, ◌++◌, not, some_inj,
  ok, ok_inj, sym, ap, subst, Each, Each-append, >>=-eq-ok, raise_if-eq-ok, or_raise,
  or_raise-eq-ok,
}
use mathlib.Core.List.{Mem, mem-cons_self, mem-cons_of_mem}
use pipelined_core.Common.Int.{ℤ, pos, ltz}
use pipelined_core.Common.Text.{Text, text_eq, text_eq→eq}
use pipelined_core.Flash.{
  Region, FlashLayout, Asset, among, region_of, asset_names, subset, required, collect,
  measure_assets, check_layout, main, split_entry, expected_assignment, unknown_asset, manifest,
  is_some,
}
use pipelined_core.Flash.Layout.{Accepted, check_layout_iff}

-- The asset is given by an entry NAME=PATH, with a name that has no "=".
abbrev pub Given : List Text → Asset → Type 0
Given entries asset =
    Mem (asset.0 ++ (61 ∷ asset.1)) entries × Each (λ c. (c == 61) ≡ false) asset.0

-- The file that an entry gives for the region `name`: its size is positive and within the capacity.
pub record FitsRegion (file_size : Text → Option ℕ) (regions : List Region) (entries : List Text)
    (name : Text) : Type 0 where
  pub path : Text
  pub size : ℕ
  pub region : Region
  pub given : Given entries (name, path)
  pub measured : file_size path ≡ some size
  pub known : region_of name regions ≡ some region
  pub positive : 0 < size
  pub within : ltz region.capacity (pos size) ≡ false

split_entry-some :
    (entry : Text) {parts : Asset}
    → split_entry entry ≡ some parts
    → (entry ≡ parts.0 ++ (61 ∷ parts.1)) × Each (λ c. (c == 61) ≡ false) parts.0
split_entry-some [] h = cc h
split_entry-some (c ∷ entry) {parts} h = elim (Bool-cases (c == 61)) [
  | inl equals ↦
      let e : some ([], entry) ≡ some parts = rw (split_entry, equals) at h in
      let c_is = (==_iff c 61).0 equals in
      subst (λ q. (c ∷ entry ≡ q.0 ++ (61 ∷ q.1)) × Each (λ d. (d == 61) ≡ false) q.0) (some_inj e)
        (ap (λ d. d ∷ entry) c_is, tt)
  | inr other ↦ elim (Option-cases (split_entry entry)) [
    | inl bad ↦ (let e = rw (split_entry, other, bad) at h in cc e)
    | inr (more, good) ↦
        let e : some (c ∷ more.0, more.1) ≡ some parts = rw (split_entry, other, good) at h in
        let (same, free) = split_entry-some entry good in
        subst (λ q. (c ∷ entry ≡ q.0 ++ (61 ∷ q.1)) × Each (λ d. (d == 61) ≡ false) q.0)
          (some_inj e) (ap (λ t. c ∷ t) same, (other, free))
  ]
]

-- All assets that are collected are given by entries.
collect-Given :
    (regions : List Region) (all entries : List Text) (assets : List Asset) {collected : List Asset}
    → ((entry : Text) → Mem entry entries → Mem entry all)
    → Each (Given all) assets
    → collect regions entries assets ≡ ok collected
    → Each (Given all) collected
unfolding collect
collect-Given regions all [] assets within gs h = subst (Each (Given all)) (ok_inj h) gs
collect-Given regions all (entry ∷ entries) assets within gs h =
    let (parts, e, h1) = >>=-eq-ok (or_raise (split_entry entry) (expected_assignment entry)) _ h in
    let (_, h2) =
      raise_if-eq-ok
        (not (is_some (region_of parts.0 regions))
          || (text_eq parts.0 manifest || among parts.0 (asset_names assets)))
        (unknown_asset parts.0) {k = collect regions entries (assets ++ (parts ∷ []))} h1 in
    let (same, free) =
      split_entry-some entry (or_raise-eq-ok (split_entry entry) (expected_assignment entry) e) in
    let here : Mem (parts.0 ++ (61 ∷ parts.1)) all =
      subst (λ t. Mem t all) same (within entry mem-cons_self) in
    collect-Given regions all entries (assets ++ (parts ∷ []))
      (λ t m. within t (mem-cons_of_mem entry m))
      (Each-append (Given all) assets (parts ∷ []) gs ((here, free), tt)) h2

measure_assets-fit :
    (file_size : Text → Option ℕ) (regions : List Region) (entries : List Text)
    (assets : List Asset) (name : Text)
    → Each (Given entries) assets
    → (measure_assets file_size regions assets).1 ≡ false
    → among name (asset_names assets) ≡ true
    → FitsRegion file_size regions entries name
unfolding measure_assets
measure_assets-fit file_size regions entries [] name gs fine named = cc
measure_assets-fit file_size regions entries ((n, path) ∷ assets) name gs fine named =
    elim (Option-cases (file_size path)) [
      | inl gone ↦ (let h = rw (measure_assets, gone) at fine in cc h)
      | inr (size, measured) ↦ elim (Option-cases (region_of n regions)) [
        | inl unknown ↦ (let h = rw (measure_assets, measured, unknown) at fine in cc h)
        | inr (region, known) ↦ elim (Bool-cases (size == 0 || ltz region.capacity (pos size))) [
          | inl bad ↦ (let h = rw (measure_assets, measured, known, bad) at fine in cc h)
          | inr good ↦ elim (Bool-cases (text_eq name n)) [
            | inl same ↦
                let (nonzero, within) =
                  or-eq-false (size == 0) (ltz region.capacity (pos size)) good in
                let e = text_eq→eq name n same in
                record {
                  path = path;
                  size = size;
                  region = region;
                  given = subst (λ t. Given entries (t, path)) (sym e) gs.0;
                  measured = measured;
                  known = rw e known;
                  positive = ground (arith, nonzero);
                  within = within;
                }
            | inr other ↦
                measure_assets-fit file_size regions entries assets name gs.1
                  (rw (measure_assets, measured, known, good) at fine) (rw other at named)
          ]
        ]
      ]
    ]

subset-among :
    (ms ns : List Text) (name : Text)
    → subset ms ns ≡ true
    → among name ms ≡ true
    → among name ns ≡ true
subset-among [] ns name h named = cc
subset-among (m ∷ ms) ns name h named =
    let (first, others) = and-eq-true _ _ h in
    elim (Bool-cases (text_eq name m)) [
      | inl same ↦ rw (text_eq→eq name m same) first
      | inr other ↦ subset-among ms ns name others (rw other at named)
    ]

-- Where artifacts are given and `main` exits with 0, the layout is accepted, and for every
-- region but the manifest the file that an entry NAME=PATH gives for it was measured, and its size is
-- positive and within the region's capacity.
pub main-zero-fit :
    (file_size : Text → Option ℕ) (layout : FlashLayout) (entry : Text) (entries : List Text)
    → (main file_size layout (entry ∷ entries)).1 ≡ 0
    → ((spare : ℤ) × Accepted layout spare)
      × ((name : Text)
          → among name (required layout.regions) ≡ true
          → FitsRegion file_size layout.regions (entry ∷ entries) name)
unfolding main
main-zero-fit file_size layout entry entries h = elim (Result-cases (check_layout layout)) [
  | inl (e, bad) ↦ (let g = rw (main, bad) at h in absurd (omega (arith, g)))
  | inr (spare, good) ↦ elim (Result-cases (collect layout.regions (entry ∷ entries) [])) [
    | inl (e, usage) ↦ (let g = rw (main, good, usage) at h in absurd (omega (arith, g)))
    | inr (assets, collected) ↦
        let names = asset_names assets in
        let needed = required layout.regions in
        elim (Bool-cases (subset names needed && subset needed names)) [
          | inl exact ↦ elim (Bool-cases (measure_assets file_size layout.regions assets).1) [
            | inl failed ↦
                (let g = rw (main, good, collected, exact, failed) at h in
                  absurd (omega (arith, g)))
            | inr fine ↦ (
              (spare, (check_layout_iff layout spare).0 good),
              λ name named.
                  measure_assets-fit file_size layout.regions (entry ∷ entries) assets name
                    (collect-Given layout.regions (entry ∷ entries) (entry ∷ entries) [] (λ t m. m)
                      tt collected)
                    fine (subset-among needed names name (and-eq-true _ _ exact).1 named),
            )
          ]
          | inr wrong ↦
              (let g = rw (main, good, collected, wrong) at h in absurd (omega (arith, g)))
        ]
  ]
]
