-- ===== src/Coverage/Keys.antt =====
-- Bins, sets of them and counts by bin.
use pipelined_core.Common.{ℕ, ◌+◌, Bool, false, ◌&&◌, ◌||◌, List, [], ◌∷◌, ◌++◌, if◌then◌else◌}
use pipelined_core.Common.Text.{Text, text_eq}

-- A group and the name of a bin.
abbrev pub Key : Type 0
Key = Text × Text

abbrev pub key_eq : Key → Key → Bool
key_eq (g, n) (h, m) = text_eq g h && text_eq n m

-- `key in keys`
unfoldable pub has_key : Key → List Key → Bool
has_key k [] = false
has_key k (j ∷ ks) = key_eq k j || has_key k ks

-- `keys.add(key)`
abbrev pub add_key : Key → List Key → List Key
add_key k ks = if has_key k ks then ks else ks ++ k ∷ []

-- `expected.update(...)`, or the set of a list
unfoldable pub add_keys : List Key → List Key → List Key
unfolding has_key
add_keys ks [] = ks
add_keys ks (k ∷ more) = add_keys (add_key k ks) more

abbrev pub Counts : Type 0
Counts = List (Key × ℕ)

-- `counts[key]` of a `defaultdict(int)`
unfoldable pub count_of : Key → Counts → ℕ
count_of k [] = 0
count_of k ((j, n) ∷ cs) = if key_eq j k then n else count_of k cs

-- `counts[key] += n`
unfoldable pub bump : Key → ℕ → Counts → Counts
bump k n [] = (k, n) ∷ []
bump k n ((j, m) ∷ cs) = if key_eq j k then (j, m + n) ∷ cs else (j, m) ∷ bump k n cs

abbrev pub count_keys : Counts → List Key
count_keys [] = []
count_keys ((k, n) ∷ cs) = k ∷ count_keys cs
