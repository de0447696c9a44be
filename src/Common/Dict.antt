-- ===== src/Common/Dict.antt =====
-- Python's `dict` with integer keys, as an association list in which an assigned key is replaced
-- in place. Iteration order is not observed: equality of dicts compares keys and values.
use Prim.Native.Nat.{ℕ}
use mathlib.Core.Path.{◌≡◌, refl, sym, ◌∙◌, subst}
use mathlib.Core.Bool.{Bool, true, false, ◌&&◌}
use mathlib.Core.Option.{Option, none, some}
use mathlib.Core.List.{List, [], ◌∷◌}
use mathlib.Core.Logic.{◌↔◌, inl, inr}
use native.Mathlib.Omega.{arith}
use pipelined_core.Common.Tests.{◌==◌, ==_iff, if◌then◌else◌, and-eq-true, Bool-cases}

abbrev pub Dict : Type 0 → Type 0
Dict V = List (ℕ × V)

module _ {V : Type 0} where
  -- `d.get(k)`
  unfoldable pub lookup : ℕ → Dict V → Option V
  lookup k [] = none
  lookup k ((j, v) ∷ d) = if j == k then some v else lookup k d

  -- `d[k] = v`
  unfoldable pub insert : ℕ → V → Dict V → Dict V
  insert k v [] = (k, v) ∷ []
  insert k v ((j, w) ∷ d) = if j == k then (k, v) ∷ d else (j, w) ∷ insert k v d

  -- `d.update(e)`
  unfoldable pub update : Dict V → Dict V → Dict V
  update d [] = d
  update d ((k, v) ∷ e) = update (insert k v d) e

  -- A dict display or comprehension: later pairs win.
  abbrev pub from_pairs : List (ℕ × V) → Dict V
  from_pairs = update []

  pub lookup-insert :
      (k j : ℕ) (v : V) (d : Dict V)
      → lookup j (insert k v d) ≡ (if k == j then some v else lookup j d)
  unfolding lookup insert
  lookup-insert k j v [] = refl
  lookup-insert k j v ((i, w) ∷ d) = ground (arith, lookup-insert k j v d)

abbrev pub same : Option ℕ → Option ℕ → Bool
same none none = true
same (some a) (some b) = a == b
same _ _ = false

pub same→≡ : (a b : Option ℕ) → same a b ≡ true → a ≡ b
same→≡ a b h = ground arith

same_refl : (a : Option ℕ) → same a a ≡ true
same_refl a = ground arith

-- Every entry of `a` has the same value in `b`.
unfoldable pub within : Dict ℕ → List ℕ → Dict ℕ → Bool
within a [] b = true
within a (k ∷ ks) b = same (lookup k a) (lookup k b) && within a ks b

unfoldable pub keys : Dict ℕ → List ℕ
keys [] = []
keys ((k, v) ∷ d) = k ∷ keys d

-- `a == b` on dicts: the same keys, with the same values.
unfoldable pub dict_eq : Dict ℕ → Dict ℕ → Bool
unfolding within keys
dict_eq a b = within a (keys a) b && within a (keys b) b

within-lookup :
    (a b : Dict ℕ) (ks : List ℕ) → ((k : ℕ) → lookup k a ≡ lookup k b) → within a ks b ≡ true
unfolding within
within-lookup a b [] h = refl
within-lookup a b (k ∷ ks) h = rw h (rw same_refl (within-lookup a b ks h))

-- A key that is no key of a dict has no value in it.
lookup-keys :
    (a b c : Dict ℕ) (k : ℕ)
    → within a (keys c) b ≡ true
    → (lookup k c ≡ none → lookup k a ≡ lookup k b)
    → lookup k a ≡ lookup k b
unfolding within keys lookup
lookup-keys a b [] k h other = other refl
lookup-keys a b ((j, v) ∷ c) k h other =
    let (here, rest) = and-eq-true (same (lookup j a) (lookup j b)) (within a (keys c) b) h in
    elim (Bool-cases (j == k)) [
      | inl e ↦
          let p : j ≡ k = (==_iff j k).0 e in
          subst (λ i. lookup i a ≡ lookup i b) p (same→≡ (lookup j a) (lookup j b) here)
      | inr e ↦ lookup-keys a b c k rest (λ n. other (rw e n))
    ]

-- Dicts are equal exactly when every key has the same value in both.
pub dict_eq_iff : (a b : Dict ℕ) → (dict_eq a b ≡ true) ↔ ((k : ℕ) → lookup k a ≡ lookup k b)
unfolding dict_eq
dict_eq_iff a b = (
  λ h k.
      let (left, right) = and-eq-true (within a (keys a) b) (within a (keys b) b) h in
      lookup-keys a b a k left (λ e. lookup-keys a b b k right (λ f. e ∙ sym f)),
  λ h. rw (within-lookup a b (keys a) h) (within-lookup a b (keys b) h),
)
