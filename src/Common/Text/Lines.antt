-- ===== src/Common/Text/Lines.antt =====
-- `str.splitlines`, `str.strip`, `str.split` and the affixes of a text.
use Prim.Native.Nat.{ℕ, zero, suc, ◌-◌}
use mathlib.Core.Path.{◌≡◌, refl}
use mathlib.Core.Bool.{Bool, true, false, ◌&&◌, ◌||◌}
use mathlib.Core.Option.{Option, none, some}
use mathlib.Core.List.{List, [], ◌∷◌, ◌++◌}
use pipelined_core.Common.Tests.{◌==◌, leb, if◌then◌else◌}
use pipelined_core.Common.Lists.{length}
use pipelined_core.Common.Text.{Text}

-- The characters that end a line.
abbrev pub is_break : ℕ → Bool
is_break c =
    (leb 10 c && leb c 13) || ((leb 28 c && leb c 30) || (c == 133 || (c == 8232 || c == 8233)))

-- The characters that `strip` removes and `split` splits at.
abbrev pub is_blank : ℕ → Bool
is_blank c =
    (leb 9 c && leb c 13)
    || ((leb 28 c && leb c 32)
        || (c == 133
            || (c == 160
                || (c == 5760
                    || ((leb 8192 c && leb c 8202)
                        || (c == 8232
                            || (c == 8233 || (c == 8239 || (c == 8287 || c == 12288)))))))))

-- `line` is what the current line has, `begun` whether it has a character, and `returned` whether
-- the one before it ended with "\r", which takes a "\n" with it.
unfoldable pub lines_from : Text → (begun returned : Bool) → Text → List Text
lines_from line begun returned [] = if begun then line ∷ [] else []
lines_from line begun returned (c ∷ s) =
    let ended = lines_from [] false (c == 13) s in
    let passed = lines_from line begun false s in
    let longer = lines_from (line ++ c ∷ []) true false s in
    if returned && c == 10 then passed else if is_break c then line ∷ ended else longer

-- `s.splitlines()`
unfoldable pub splitlines : Text → List Text
unfolding lines_from
splitlines = lines_from [] false false

-- `s.split()`, with the current word.
unfoldable pub words_from : Text → Text → List Text
words_from [] [] = []
words_from (w ∷ word) [] = (w ∷ word) ∷ []
words_from word (c ∷ s) =
    let ended = words_from [] s in
    let longer = words_from (word ++ c ∷ []) s in
    if is_blank c then elim word [ [] ↦ ended | w ∷ more ↦ (w ∷ more) ∷ ended ] else longer

unfoldable pub lstrip : Text → Text
lstrip [] = []
lstrip (c ∷ s) = let rest = lstrip s in if is_blank c then rest else c ∷ s

abbrev pub backwards : Text → Text
backwards [] = []
backwards (c ∷ s) = backwards s ++ c ∷ []

unfoldable pub strip : Text → Text
unfolding lstrip
strip s = backwards (lstrip (backwards (lstrip s)))

-- `s.split(sep)` for a separator of one character, with the current part.
unfoldable pub split_from : ℕ → Text → Text → List Text
split_from sep part [] = part ∷ []
split_from sep part (c ∷ s) =
    let ended = split_from sep [] s in
    let longer = split_from sep (part ++ c ∷ []) s in if c == sep then part ∷ ended else longer

-- `s.split(sep, 1)`, where the separator occurs.
unfoldable pub split_once : ℕ → Text → Option (Text × Text)
split_once sep [] = none
split_once sep (c ∷ s) =
    let rest = split_once sep s in
    if c == sep
    then some ([], s)
    else elim rest [ none ↦ none | some parts ↦ some (c ∷ parts.0, parts.1) ]

-- What follows `t` at the front.
unfoldable pub after_prefix : Text → Text → Option Text
after_prefix [] s = some s
after_prefix (a ∷ t) [] = none
after_prefix (a ∷ t) (c ∷ s) = let rest = after_prefix t s in if a == c then rest else none

-- `s.split(sep)` for any separator, with the current part; the `skip` characters in front belong to
-- the separator before.
unfoldable pub split_at : Text → Text → ℕ → Text → List Text
split_at sep part skip [] = part ∷ []
split_at sep part (suc skip) (c ∷ s) = split_at sep part skip s
split_at sep part zero (c ∷ s) =
    let ended = split_at sep [] (length sep - 1) s in
    let longer = split_at sep (part ++ c ∷ []) 0 s in
    elim (after_prefix sep (c ∷ s)) [ none ↦ longer | some _ ↦ part ∷ ended ]

abbrev pub startswith : Text → Text → Bool
startswith t s = elim (after_prefix t s) [ none ↦ false | some _ ↦ true ]

-- `s.removeprefix(t)` and `s.removesuffix(t)`
unfoldable pub removeprefix : Text → Text → Text
unfolding after_prefix
removeprefix t s = elim (after_prefix t s) [ none ↦ s | some rest ↦ rest ]

unfoldable pub removesuffix : Text → Text → Text
unfolding removeprefix
removesuffix t s = backwards (removeprefix (backwards t) (backwards s))

-- The order of texts, by code points: `s < t`.
unfoldable pub text_lt : Text → Text → Bool
text_lt s [] = false
text_lt [] (d ∷ t) = true
text_lt (c ∷ s) (d ∷ t) = let rest = text_lt s t in if c == d then rest else leb c d

-- The part behind the last "/" that counts, `Path(s).name`: empty parts and "." do not count.
unfoldable pub last_part : Text → List Text → Text
last_part found [] = found
last_part found (part ∷ parts) =
    let kept = last_part found parts in
    let next = last_part part parts in
    elim part [ [] ↦ kept | c ∷ [] ↦ if c == b'.' then kept else next | c ∷ d ∷ more ↦ next ]

unfoldable pub path_name : Text → Text
unfolding split_from last_part
path_name s = last_part [] (split_from b'/' [] s)

lines_test :
    splitlines (97 ∷ 13 ∷ 10 ∷ 98 ∷ 10 ∷ 10 ∷ 99 ∷ []) ≡ (97 ∷ []) ∷ (98 ∷ []) ∷ [] ∷ (99 ∷ []) ∷ []
unfolding splitlines
lines_test = refl
