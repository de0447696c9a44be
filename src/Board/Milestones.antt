-- ===== src/Board/Milestones.antt =====
-- Which boot captures `verify` of scripts/capture_checkpoint10.py accepts.
use pipelined_core.Common.{
  ℕ, ◌+◌, ◌≤◌, true, Option-cases, List, [], ◌∷◌, length, drop, ok, ◌≡◌, ◌↔◌, inl, inr, refl, arith,
}
use pipelined_core.Common.Bytes.{Bytes, starts_with, find}
use pipelined_core.Common.Bytes.First.{find-occurs, find-first}
use pipelined_core.Common.Bytes.Search.{find-bounds}
use pipelined_core.Board.{verify}

-- The markers occur from `cursor` on in their order, and none overlaps the one before it.
pub data Milestones (data_ : Bytes) : ℕ → List Bytes → Type 0 where
  done : {cursor : ℕ} → Milestones data_ cursor []
  next :
      {cursor : ℕ} {marker : Bytes} {more : List Bytes} (found : ℕ)
      → cursor ≤ found
      → found ≤ length data_
      → starts_with marker (drop found data_) ≡ true
      → Milestones data_ (found + length marker) more
      → Milestones data_ cursor (marker ∷ more)

Milestones-earlier :
    (data_ : Bytes) (ms : List Bytes) (a b : ℕ)
    → a ≤ b
    → Milestones data_ b ms
    → Milestones data_ a ms
Milestones-earlier data_ [] a b h done = done
Milestones-earlier data_ (m ∷ ms) a b h (next found after inside occurs rest) =
    next found (omega arith) inside occurs rest

verify-Milestones :
    (ms : List Bytes) (data_ : Bytes) (cursor : ℕ)
    → verify ms data_ cursor ≡ ok tt
    → Milestones data_ cursor ms
unfolding verify
verify-Milestones [] data_ cursor h = done
verify-Milestones (m ∷ ms) data_ cursor h = elim (Option-cases (find m data_ cursor)) [
  | inl missing ↦ (let g = rw (verify, missing) at h in cc g)
  | inr (j, found) ↦
      let (after, inside) = find-bounds m data_ cursor {j = j} found in
      next j after inside (find-occurs m data_ cursor {j = j} found)
        (verify-Milestones ms data_ (j + length m) (rw (verify, found) at h))
]

Milestones-verify :
    (ms : List Bytes) (data_ : Bytes) (cursor : ℕ)
    → Milestones data_ cursor ms
    → verify ms data_ cursor ≡ ok tt
unfolding verify
Milestones-verify [] data_ cursor done = refl
Milestones-verify (m ∷ ms) data_ cursor (next k after inside occurs rest) =
    let (j, found, before) = find-first m data_ cursor k after inside occurs in
    rw (verify, found)
      (Milestones-verify ms data_ (j + length m)
        (Milestones-earlier data_ ms (j + length m) (k + length m) (omega (arith, before)) rest))

-- `verify` accepts exactly the captures in which the markers occur in their order and without an
-- overlap, though it looks for the first place of each alone.
pub verify_iff :
    (ms : List Bytes) (data_ : Bytes) (cursor : ℕ)
    → (verify ms data_ cursor ≡ ok tt) ↔ Milestones data_ cursor ms
verify_iff ms data_ cursor = (verify-Milestones ms data_ cursor, Milestones-verify ms data_ cursor)
