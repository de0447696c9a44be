-- ===== src/Flash/Layout.antt =====
-- Which layouts `check_layout` accepts.
use pipelined_core.Common.{
  ℕ, zero, suc, ◌+◌, true, false, List, [], ◌∷◌, ok, >>=-eq-ok, ◌≡◌, ◌↔◌, refl, ap, lt→ltb,
  raise_if-eq-ok, or-eq-false, not-eq-false, ==_refl, sym, ◌∙◌, arith,
}
use pipelined_core.Common.Int.{ℤ, pos, negsuc, ◌+ℤ◌, ◌-ℤ◌, ltz, eqz}
use pipelined_core.Common.Text.{Text}
use pipelined_core.Flash.{
  Region, FlashLayout, exceeds_flash, only_spare, among, check_regions, check_layout,
}

-- The regions follow each other from `start` to `end` without a gap or an overlap, none is
-- empty, none has a name of `seen` or of another, and each ends inside the flash.
pub data Tiles (flash_bytes : ℤ) : ℕ → List Text → List Region → ℕ → Type 0 where
  done : {end : ℕ} {seen : List Text} → Tiles flash_bytes end seen [] end
  next :
      {start end : ℕ} {seen : List Text} {rs : List Region} (r : Region) (c : ℕ)
      → among r.name seen ≡ false
      → r.offset ≡ pos start
      → r.capacity ≡ pos (suc c)
      → ltz flash_bytes (pos (start + suc c)) ≡ false
      → Tiles flash_bytes (start + suc c) (r.name ∷ seen) rs end
      → Tiles flash_bytes start seen (r ∷ rs) end

eqz-pos : (a : ℤ) (n : ℕ) → eqz a (pos n) ≡ true → a ≡ pos n
eqz-pos (pos m) n h = ground arith
eqz-pos (negsuc m) n h = cc

positive : (a : ℤ) → ltz (pos 0) a ≡ true → (c : ℕ) × (a ≡ pos (suc c))
positive (pos zero) h = absurd (ground arith)
positive (pos (suc c)) h = (c, refl)
positive (negsuc m) h = absurd (ground arith)

check_regions-Tiles :
    (flash : ℤ) (rs : List Region) (start : ℕ) (seen : List Text) {end : ℤ}
    → check_regions flash rs (pos start) seen ≡ ok end
    → (e : ℕ) × (end ≡ pos e) × Tiles flash start seen rs e
unfolding check_regions
check_regions-Tiles flash [] start seen {end = end} h = (start, cc, done)
check_regions-Tiles flash (r ∷ rs) start seen {end = end} h =
    let (fresh_, h1) = raise_if-eq-ok _ _ h in
    let beyond = r.offset +ℤ r.capacity in
    let (inside, h2) =
      raise_if-eq-ok (ltz flash beyond) (exceeds_flash r.name)
        {k = check_regions flash rs beyond (r.name ∷ seen)} h1 in
    let (unseen, placed) = or-eq-false _ _ fresh_ in
    let (at_end, filled) = or-eq-false _ _ placed in
    let o = eqz-pos r.offset start (not-eq-false _ at_end) in
    let (c, k) = positive r.capacity (not-eq-false _ filled) in
    let (e, same, tiles) =
      check_regions-Tiles flash rs (start + suc c) (r.name ∷ seen) {end = end} (rw (o, k) at h2) in
    (e, same, next r c unseen o k (rw (o, k) at inside) tiles)

Tiles-check_regions :
    (flash : ℤ) (rs : List Region) (start : ℕ) (seen : List Text) {e : ℕ}
    → Tiles flash start seen rs e
    → check_regions flash rs (pos start) seen ≡ ok (pos e)
unfolding check_regions
Tiles-check_regions flash [] start seen done = refl
Tiles-check_regions flash (r ∷ rs) start seen (next _ c unseen o k inside tiles) =
    rw (unseen, o, k, inside, ==_refl start, lt→ltb 0 (suc c) (omega arith))
      (Tiles-check_regions flash rs (start + suc c) (r.name ∷ seen) tiles)

-- The regions tile the flash from its start to `end`, and what is left is `spare`, the minimum
-- at least.
pub record Accepted (layout : FlashLayout) (spare : ℤ) : Type 0 where
  pub end : ℕ
  pub tiled : Tiles layout.flash_bytes 0 [] layout.regions end
  pub left : spare ≡ layout.flash_bytes -ℤ pos end
  pub enough : ltz spare layout.minimum_spare_bytes ≡ false

-- `check_layout` returns `spare` for exactly the layouts whose regions tile the flash from 0
-- on, in their order and under different names, where `spare`, what they leave of it, is no
-- less than the minimum.
pub check_layout_iff :
    (layout : FlashLayout) (spare : ℤ) → (check_layout layout ≡ ok spare) ↔ Accepted layout spare
unfolding check_layout
check_layout_iff layout spare = (
  λ h.
      let (end, tiles, h1) =
        >>=-eq-ok (check_regions layout.flash_bytes layout.regions (pos 0) []) _ h in
      let (e, same, tiled) =
        check_regions-Tiles layout.flash_bytes layout.regions 0 [] {end = end} tiles in
      let (enough, h2) =
        raise_if-eq-ok (ltz (layout.flash_bytes -ℤ end) layout.minimum_spare_bytes)
          (only_spare (layout.flash_bytes -ℤ end) layout.minimum_spare_bytes)
          {k = ok (layout.flash_bytes -ℤ end)} h1 in
      record {
        end = e;
        tiled = tiled;
        left =
            (let same_spare : layout.flash_bytes -ℤ end ≡ spare = cc in
              sym same_spare ∙ ap (λ x. layout.flash_bytes -ℤ x) same);
        enough =
            (let same_spare : layout.flash_bytes -ℤ end ≡ spare = cc in rw same_spare at enough);
      },
  λ a.
      rw (Tiles-check_regions layout.flash_bytes layout.regions 0 [] a.tiled, sym a.left, a.enough)
        refl,
)
