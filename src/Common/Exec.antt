-- ===== src/Common/Exec.antt =====
-- Python code with effects and exceptions: what was done before a raise stays done.
use pipelined_core.Common.{Bool, true, false, Result, ok, err, raise_if, ◌≡◌, refl, ◌⊎◌, inl, inr}

abbrev pub Effect : Type 0 → Type 0 → Type 0 → Type 0
Effect E W A = W → Result E A × W

module _ {E W : Type 0} where
  abbrev pub pure : {A : Type 0} → A → Effect E W A
  pure a w = (ok a, w)

  abbrev pub raise : {A : Type 0} → E → Effect E W A
  raise e w = (err e, w)

  abbrev pub lift : {A : Type 0} → Result E A → Effect E W A
  lift r w = (r, w)

  abbrev pub exec_if : {A : Type 0} → Bool → Effect E W A → Effect E W A → Effect E W A
  exec_if true m n = m
  exec_if false m n = n

  -- What follows a result in the world that it left.
  abbrev pub after : {A B : Type 0} → Result E A → (A → Effect E W B) → Effect E W B
  after (ok a) f w = f a w
  after (err e) f w = (err e, w)

  infixl 5 ◌>>=◌ ◌>>◌
  unfoldable pub ◌>>=◌ : {A B : Type 0} → Effect E W A → (A → Effect E W B) → Effect E W B
  ◌>>=◌ m f w = after (m w).0 f (m w).1

  abbrev pub ◌>>◌ : {B : Type 0} → Effect E W (Unit {0}) → Effect E W B → Effect E W B
  m >> k = m >>= λ _. k

  abbrev pub exec_raise_if : Bool → E → Effect E W (Unit {0})
  exec_raise_if b e w = (raise_if b e, w)

  after-eq-ok :
      {A B : Type 0} (r : Result E A) (f : A → Effect E W B) (w : W) {b : B}
      → (after r f w).0 ≡ ok b
      → (a : A) × (r ≡ ok a) × ((f a w).0 ≡ ok b)
  after-eq-ok (ok a) f w h = (a, refl, h)
  after-eq-ok (err e) f w h = cc

  -- A block that returns has returned from each of its parts.
  pub bind-eq-ok :
      {A B : Type 0} (m : Effect E W A) (f : A → Effect E W B) (w : W) {b : B}
      → ((m >>= f) w).0 ≡ ok b
      → (a : A) × ((m w).0 ≡ ok a) × ((f a (m w).1).0 ≡ ok b)
  unfolding ◌>>=◌
  bind-eq-ok m f w h = after-eq-ok (m w).0 f (m w).1 h

  -- The rule for a block: a claim on results and worlds that every exception meets holds of it if it
  -- holds of the second part after whatever the first returns.
  pub bind-post {κ} :
      {A B : Type 0} (P : Result E B → W → Type κ) (raised : (e : E) (w : W) → P (err e) w)
      (m : Effect E W A) (f : A → Effect E W B) (w : W)
      → ((a : A) → (m w).0 ≡ ok a → P (f a (m w).1).0 (f a (m w).1).1)
      → P ((m >>= f) w).0 ((m >>= f) w).1
  unfolding ◌>>=◌
  bind-post {A} {B} P raised m f w h = by_result (m w).0 h
    where
      by_result :
          (r : Result E A)
          → ((a : A) → r ≡ ok a → P (f a (m w).1).0 (f a (m w).1).1)
          → P (after r f (m w).1).0 (after r f (m w).1).1
      by_result (ok a) k = k a refl
      by_result (err e) k = raised e _

  -- Of an outcome: `Q` where it is a result, `R` where it is an exception.
  abbrev pub Post {κ} :
      {A : Type 0} (Q : A → W → Type κ) (R : E → W → Type κ) → Result E A × W → Type κ
  Post Q R (ok a, w) = Q a w
  Post Q R (err e, w) = R e w

  -- The rule for a block with claims on results and on exceptions.
  pub Post-bind {κ} :
      {A B : Type 0} (Q : A → W → Type κ) (Q' : B → W → Type κ) (R : E → W → Type κ)
      (m : Effect E W A) (f : A → Effect E W B) (w : W)
      → Post Q R (m w)
      → ((a : A) (w' : W) → Q a w' → Post Q' R (f a w'))
      → Post Q' R ((m >>= f) w)
  unfolding ◌>>=◌
  Post-bind {A} {B} Q Q' R m f w = by_outcome (m w)
    where
      by_outcome :
          (o : Result E A × W)
          → Post Q R o
          → ((a : A) (w' : W) → Q a w' → Post Q' R (f a w'))
          → Post Q' R (after o.0 f o.1)
      by_outcome (ok a, w') q k = k a w' q
      by_outcome (err e, w') r k = r

  -- A claim that implies another.
  pub Post-map {κ} :
      {A : Type 0} (Q Q' : A → W → Type κ) (R R' : E → W → Type κ) (o : Result E A × W)
      → ((a : A) (w : W) → Q a w → Q' a w)
      → ((e : E) (w : W) → R e w → R' e w)
      → Post Q R o
      → Post Q' R' o
  Post-map Q Q' R R' (ok a, w) f g q = f a w q
  Post-map Q Q' R R' (err e, w) f g r = g e w r

  -- Which branch a decided effect has taken.
  pub branch :
      {A : Type 0} (b : Bool) (x y : Effect E W A) (w : W) {o : Result E A × W}
      → (elim b as (λ c. Effect E W A) [ false ↦ y | true ↦ x ]) w ≡ o
      → ((b ≡ true) × (x w ≡ o)) ⊎ ((b ≡ false) × (y w ≡ o))
  branch true x y w h = inl (refl, h)
  branch false x y w h = inr (refl, h)

  pub branch-false :
      {A : Type 0} (b : Bool) (x y : Effect E W A) (w : W)
      → b ≡ false
      → (elim b as (λ c. Effect E W A) [ false ↦ y | true ↦ x ]) w ≡ y w
  branch-false true x y w h = cc h
  branch-false false x y w h = refl

  pub branch-true :
      {A : Type 0} (b : Bool) (x y : Effect E W A) (w : W)
      → b ≡ true
      → (elim b as (λ c. Effect E W A) [ false ↦ y | true ↦ x ]) w ≡ x w
  branch-true true x y w h = refl
  branch-true false x y w h = cc h

  -- A block whose first part returns goes on with the second.
  pub bind_ok :
      {A B : Type 0} (m : Effect E W A) (f : A → Effect E W B) (w : W) {a : A}
      → (m w).0 ≡ ok a
      → (m >>= f) w ≡ f a (m w).1
  unfolding ◌>>=◌
  bind_ok m f w h = rw h refl
