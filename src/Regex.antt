-- ===== src/Regex.antt =====
-- The part of Python's `re` that the tools use: classes, greedy and lazy repetition of a class, literal
-- text, alternatives, optional parts and groups, matched by backtracking in `re`'s order of preference.
use pipelined_core.Common.{
  ℕ, zero, suc, ◌-◌, Bool, true, false, not, ◌||◌, ◌&&◌, Option, none, some, List, [], ◌∷◌, ◌++◌,
  length, take, ◌==◌, leb, if◌then◌else◌,
}
use pipelined_core.Common.Text.{Text, is_digit}

pub data Re : Type 0 where
  lit : Text → Re
  cls : (ℕ → Bool) → Re
  star : (ℕ → Bool) → Re
  lazy : (ℕ → Bool) → Re
  group : Re → Re
  opt : Re → Re
  seq : Re → Re → Re
  alt : Re → Re → Re

-- `[...]+`
abbrev pub plus : (ℕ → Bool) → Re
plus p = seq (cls p) (star p)

infixr 66 ◌⨾◌
abbrev pub ◌⨾◌ : Re → Re → Re
a ⨾ b = seq a b

-- `\s` and the word characters of `\b`, on ASCII text
abbrev pub is_space : ℕ → Bool
is_space c = (leb 9 c && leb c 13) || (leb 28 c && leb c 32)

abbrev pub is_word : ℕ → Bool
is_word c = is_digit c || (leb b'a' c && leb c b'z') || (leb b'A' c && leb c b'Z') || c == b'_'

-- `.`
abbrev pub not_newline : ℕ → Bool
not_newline c = not (c == 10)

-- What follows the text `t` at the front of `s`.
unfoldable pub strip : Text → Text → Option Text
strip [] s = some s
strip (a ∷ t) [] = none
strip (a ∷ t) (c ∷ s) = if a == c then strip t s else none

-- A continuation is tried at the longest run first.
unfoldable pub star_match {ℓ} : {R : Type ℓ} → (ℕ → Bool) → Text → (Text → Option R) → Option R
star_match p [] k = k []
star_match p (c ∷ s) k = elim (p c) [
  | true ↦ elim (star_match p s k) [ some r ↦ some r | none ↦ k (c ∷ s) ]
  | false ↦ k (c ∷ s)
]

-- `*?`: a continuation is tried at the shortest run first.
unfoldable pub lazy_match {ℓ} : {R : Type ℓ} → (ℕ → Bool) → Text → (Text → Option R) → Option R
lazy_match p [] k = k []
lazy_match p (c ∷ s) k = elim (k (c ∷ s)) [
  | some r ↦ some r
  | none ↦ elim (p c) [ true ↦ lazy_match p s k | false ↦ none ]
]

abbrev class_match {ℓ} : {R : Type ℓ} → (ℕ → Bool) → Text → (Text → Option R) → Option R
class_match p [] k = none
class_match p (c ∷ s) k = elim (p c) [ true ↦ k s | false ↦ none ]

-- Match `r` at the front of `s` after the groups `g`, and go on with `k`.
unfoldable pub match_at {ℓ} :
    {R : Type ℓ} → Re → Text → List Text → (Text → List Text → Option R) → Option R
unfolding strip star_match lazy_match
match_at (lit t) s g k = elim (strip t s) [ none ↦ none | some rest ↦ k rest g ]
match_at (cls p) s g k = class_match p s (λ rest. k rest g)
match_at (star p) s g k = star_match p s (λ rest. k rest g)
match_at (lazy p) s g k = lazy_match p s (λ rest. k rest g)
match_at (group r) s g k =
    match_at r s g (λ rest h. k rest (h ++ (take (length s - length rest) s ∷ [])))
match_at (opt r) s g k = elim (match_at r s g k) [ some a ↦ some a | none ↦ k s g ]
match_at (alt a b) s g k = elim (match_at a s g k) [ some r ↦ some r | none ↦ match_at b s g k ]
match_at (seq a b) s g k = match_at a s g (λ rest h. match_at b rest h k)

abbrev at_end : Text → List Text → Option (List Text)
at_end [] g = some g
at_end (c ∷ s) g = none

-- `pattern.fullmatch(s)`: the groups, from group 1 on; an optional group that took no part is left
-- out, which is unambiguous where only the last one is optional.
unfoldable pub fullmatch : Re → Text → Option (List Text)
unfolding match_at
fullmatch r s = match_at r s [] at_end

-- A match at the front: what follows it, and its groups.
unfoldable pub match_front : Re → Text → Option (Text × List Text)
unfolding match_at
match_front r s = match_at r s [] (λ rest g. some (rest, g))

abbrev differs : Bool → Bool → Bool
differs true b = not b
differs false b = b

-- `re.finditer(r"\b" + r, s)`, for `r` that matches no empty text: the groups of the matches, left to
-- right. `before` says whether the character in front of the position is a word character, and `skip`
-- counts the characters of the last match that are still to be passed.
unfoldable pub find_all : Re → Bool → ℕ → Text → List (List Text)
unfolding match_front
find_all r before skip [] = []
find_all r before (suc skip) (c ∷ s) = find_all r (is_word c) skip s
find_all r before zero (c ∷ s) =
    let next = find_all r (is_word c) 0 s in
    elim (differs before (is_word c)) [
      | false ↦ next
      | true ↦ elim (match_front r (c ∷ s)) [
        | none ↦ next
        | some (rest, g) ↦ g ∷ find_all r (is_word c) (length s - length rest) s
      ]
    ]

-- `re.findall(r, s)`, for `r` that matches no empty text: the groups of the matches, left to right.
unfoldable pub search_all : Re → ℕ → Text → List (List Text)
unfolding match_front
search_all r skip [] = []
search_all r (suc skip) (c ∷ s) = search_all r skip s
search_all r zero (c ∷ s) =
    let next = search_all r 0 s in
    elim (match_front r (c ∷ s)) [
      | none ↦ next
      | some (rest, g) ↦ g ∷ search_all r (length s - length rest) s
    ]
