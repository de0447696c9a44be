-- ===== src/Generate/Draws.antt =====
-- What the draws of a generator ensure, and how that is put together along a program.
pub use pipelined_core.Common.{Each, Each-append}
use mathlib.Core.Option.{some}
use pipelined_core.Common.{
  ℕ, zero, suc, ◌<◌, Bool, true, false, List, [], ◌∷◌, length, if◌then◌else◌, ◌≡◌, refl, arith,
}
use pipelined_core.Common.Int.{ℤ, pos, negsuc, ltz}
use pipelined_core.Generate.{Rng, Gen, ret, draw, ◌>>=◌, pick, choose, immediate}

-- What the documentation of `random` says of the draws.
pub record Documented (g : Rng) : Type 0 where
  pub randrange-lt : (n : ℕ) (s : g.State) → 0 < n → (g.randrange n s).0 < n
  pub between-ge : (a b : ℤ) (s : g.State) → ltz a b ≡ true → ltz (g.between a b s).0 a ≡ false
  pub between-lt : (a b : ℤ) (s : g.State) → ltz a b ≡ true → ltz (g.between a b s).0 b ≡ true
  pub choice-lt : (n : ℕ) (s : g.State) → 0 < n → (g.choice n s).0 < n

abbrev pub IsImm12 : ℤ → Type 0
IsImm12 i = (ltz i (negsuc 2047) ≡ false) × (ltz i (pos 2048) ≡ true)

pub Each-any : {A : Type 0} (xs : List A) → Each (λ _. Unit {0}) xs
Each-any [] = tt
Each-any (x ∷ xs) = (tt, Each-any xs)

module _ (g : Rng) (d : Documented g) where
  -- From every state `m` returns, without an IndexError, and what it returns has `P`.
  abbrev pub Ensures : {A : Type 0} → Gen g A → (A → Type 0) → Type 0
  Ensures {A} m P = (s : g.State) → (a : A) × (t : g.State) × (m s ≡ some (a, t)) × P a

  pub bind-Ensures :
      {A B : Type 0} (m : Gen g A) (f : A → Gen g B) (P : A → Type 0) (Q : B → Type 0)
      → Ensures m P
      → ((a : A) → P a → Ensures (f a) Q)
      → Ensures (◌>>=◌ g m f) Q
  unfolding ◌>>=◌
  bind-Ensures m f P Q hm hf s =
      let (a, t, e, p) = hm s in let (b, u, e', q) = hf a p t in (b, u, rw (◌>>=◌, e) e', q)

  pub pick-Ensures :
      {A : Type 0} (P : A → Type 0) (xs : List A) (i : ℕ)
      → Each P xs
      → i < length xs
      → Ensures (pick g xs i) P
  unfolding pick
  pick-Ensures P [] i hx h s = absurd (omega arith)
  pick-Ensures P (x ∷ xs) zero hx h s = (x, s, refl, hx.0)
  pick-Ensures P (x ∷ xs) (suc i) hx h s = pick-Ensures P xs i hx.1 (omega arith) s

  pub choose-Ensures :
      {A : Type 0} (P : A → Type 0) (xs : List A)
      → Each P xs
      → 0 < length xs
      → Ensures (choose g xs) P
  unfolding choose
  choose-Ensures P xs hx h =
      bind-Ensures _ (pick g xs) (λ i. i < length xs) P
        (λ s. (_, _, refl, d.choice-lt (length xs) s h)) (λ i inside. pick-Ensures P xs i hx inside)

  pub randrange-Ensures : (n : ℕ) → 0 < n → Ensures (draw g (g.randrange n)) (λ i. i < n)
  randrange-Ensures n h s = (_, _, refl, d.randrange-lt n s h)

  pub immediate-Ensures : Ensures (immediate g) IsImm12
  immediate-Ensures s = (
    _,
    _,
    refl,
    (d.between-ge (negsuc 2047) (pos 2048) s refl, d.between-lt (negsuc 2047) (pos 2048) s refl),
  )

  pub ret-Ensures : {A : Type 0} (P : A → Type 0) (a : A) → P a → Ensures (ret g a) P
  ret-Ensures P a p s = (a, s, refl, p)

  pub if-Ensures :
      {A : Type 0} (b : Bool) (m k : Gen g A) (P : A → Type 0)
      → (b ≡ true → Ensures m P)
      → (b ≡ false → Ensures k P)
      → Ensures (if b then m else k) P
  if-Ensures true m k P hm hk = hm refl
  if-Ensures false m k P hm hk = hk refl

  -- A name of any kind, as long as the place is one of the tuple's.
  pub pick_any :
      {A : Type 0} (xs : List A) (i : ℕ) → i < length xs → Ensures (pick g xs i) (λ _. Unit {0})
  pick_any xs i h = pick-Ensures (λ _. Unit) xs i (Each-any xs) h

  pub choose_any :
      {A : Type 0} (xs : List A) → 0 < length xs → Ensures (choose g xs) (λ _. Unit {0})
  choose_any xs h = choose-Ensures (λ _. Unit) xs (Each-any xs) h
