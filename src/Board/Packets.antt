-- ===== src/Board/Packets.antt =====
-- Which packet the decoders read: the last one that is complete.
use pipelined_core.Common.{
  ℕ, zero, suc, ◌+◌, ◌-◌, ◌≤◌, ◌<◌, true, false, ◌&&◌, Option, none, some, Option-cases, Bool-cases,
  [], ◌∷◌, length, drop, drop-nil, drop-drop, ltb, leb, ltb→lt, ltb-false, ◌==◌, if◌then◌else◌,
  and-eq-true, ◌≡◌, inl, inr, refl, sym, arith,
}
use pipelined_core.Common.Bytes.{Bytes, starts_with, rfind_at, rfind}
use pipelined_core.Common.Bytes.Search.{Avoids}
use pipelined_core.Board.{last_complete, packet_offset}

-- `p` starts nowhere in `s` from `from` on, where it would end before `end`.
abbrev Gone : Bytes → Bytes → ℕ → ℕ → ℕ → Type 0
Gone p s i from end = (k : ℕ) → from ≤ k → i + k + length p ≤ end → starts_with p (drop k s) ≡ false

Gone-suc :
    (p s : Bytes) (c i from end : ℕ) → Gone p s (i + 1) from end → Gone p (c ∷ s) i (suc from) end
Gone-suc p s c i from end gone zero after fits = absurd (omega arith)
Gone-suc p s c i from end gone (suc k) after fits = gone k (omega arith) (omega arith)

not_here :
    (b : ℕ) (p s : Bytes) (c i end : ℕ)
    → (if starts_with (b ∷ p) (c ∷ s) && leb (i + length (b ∷ p)) end then some i else none) ≡ none
    → Gone (b ∷ p) (c ∷ s) i 1 end
    → Gone (b ∷ p) (c ∷ s) i 0 end
unfolding starts_with
not_here b p s c i end here later zero after fits = ground arith
not_here b p s c i end here later (suc k) after fits = later (suc k) (omega arith) fits

rfind_at-none :
    (b : ℕ) (p s : Bytes) (i end : ℕ) → rfind_at (b ∷ p) s i end ≡ none → Gone (b ∷ p) s i 0 end
unfolding rfind_at starts_with
rfind_at-none b p [] i end h = λ k after fits. rw (drop-nil {0} {A = ℕ} k) refl
rfind_at-none b p (c ∷ s) i end h = elim (Option-cases (rfind_at (b ∷ p) s (i + 1) end)) [
  | inr (j, e) ↦ (let g = rw (rfind_at, e) at h in cc g)
  | inl gone ↦
      not_here b p s c i end (rw (rfind_at, gone) at h)
        (Gone-suc (b ∷ p) s c i 0 end (rfind_at-none b p s (i + 1) end gone))
]

-- What `rfind_at` has found: the last place of `p` in `s` that ends before `end`.
record Found (p s : Bytes) (i end j : ℕ) : Type 0 where
  at : ℕ
  place : j ≡ i + at
  occurs : starts_with p (drop at s) ≡ true
  inside : j + length p ≤ end
  last : Gone p s i (suc at) end

here_at :
    (b : ℕ) (p s : Bytes) (c i end : ℕ) {j : ℕ}
    → (if starts_with (b ∷ p) (c ∷ s) && leb (i + length (b ∷ p)) end then some i else none)
      ≡ some j
    → (j ≡ i + 0) × (starts_with (b ∷ p) (c ∷ s) ≡ true) × (j + length (b ∷ p) ≤ end)
here_at b p s c i end {j = j} h = ground arith

rfind_at-some :
    (b : ℕ) (p s : Bytes) (i end : ℕ) {j : ℕ}
    → rfind_at (b ∷ p) s i end ≡ some j
    → Found (b ∷ p) s i end j
unfolding rfind_at starts_with
rfind_at-some b p [] i end h = cc
rfind_at-some b p (c ∷ s) i end {j = j} h = elim (Option-cases (rfind_at (b ∷ p) s (i + 1) end)) [
  | inr (j', e) ↦
      let same : j' ≡ j = (let g = rw (rfind_at, e) at h in cc g) in
      let f = rfind_at-some b p s (i + 1) end {j = j'} e in
      let e1 = f.place in
      record {
        at = suc f.at;
        place = omega (arith, e1, same);
        occurs = f.occurs;
        inside = rw same at f.inside;
        last = Gone-suc (b ∷ p) s c i (suc f.at) end f.last;
      }
  | inl gone ↦
      let (place, occurs, inside) = here_at b p s c i end {j = j} (rw (rfind_at, gone) at h) in
      record {
        at = 0;
        place = place;
        occurs = occurs;
        inside = inside;
        last = Gone-suc (b ∷ p) s c i 0 end (rfind_at-none b p s (i + 1) end gone);
      }
]

-- Another occurrence of `b ∷ q` starts behind all of `p`, where `p` has no byte `b`.
behind :
    (b : ℕ) (p q t : Bytes) (d : ℕ)
    → Avoids b p
    → starts_with p t ≡ true
    → starts_with (b ∷ q) (drop d t) ≡ true
    → length p ≤ d
unfolding starts_with
behind b [] q t d free first second = omega arith
behind b (c ∷ p) q [] d free first second = cc
behind b (c ∷ p) q (e ∷ t) zero free first second = ground arith
behind b (c ∷ p) q (e ∷ t) (suc d) free first second = ground (arith, behind b p q t d)

behind_all :
    (b : ℕ) (p t : Bytes) (d : ℕ)
    → Avoids b p
    → starts_with (b ∷ p) t ≡ true
    → starts_with (b ∷ p) (drop (suc d) t) ≡ true
    → length p ≤ d
unfolding starts_with
behind_all b p [] d free first second = cc
behind_all b p (e ∷ t) d free first second =
    behind b p p t d free (and-eq-true (b == e) _ first).1 second

-- No packet of `n` bytes that starts at `from` or behind is complete.
abbrev pub NoPacket : Bytes → ℕ → Bytes → ℕ → Type 0
NoPacket magic n data_ from =
    (k : ℕ) → from ≤ k → k + n ≤ length data_ → starts_with magic (drop k data_) ≡ false

-- The offset is that of the last complete packet; there is none where it is `none`.
abbrev pub IsLast : Bytes → ℕ → Bytes → Option ℕ → Type 0
IsLast magic n data_ none = NoPacket magic n data_ 0
IsLast magic n data_ (some o) =
    (o + n ≤ length data_)
    × (starts_with magic (drop o data_) ≡ true)
    × NoPacket magic n data_ (suc o)

module _ (b : ℕ) (p : Bytes) (free : Avoids b p) (n : ℕ) (long : length (b ∷ p) ≤ n)
    (data_ : Bytes) where
  -- Two occurrences do not overlap.
  apart :
      (k o : ℕ)
      → k < o
      → starts_with (b ∷ p) (drop k data_) ≡ true
      → starts_with (b ∷ p) (drop o data_) ≡ true
      → k + length (b ∷ p) ≤ o
  apart k o before first second =
      let e : o ≡ k + suc (o - k - 1) = omega (arith, before) in
      let d = o - k - 1 in
      let moved : starts_with (b ∷ p) (drop (suc d) (drop k data_)) ≡ true =
        rw (drop-drop {0} (suc d) k data_, sym e) second in
      let enough = behind_all b p (drop k data_) d free first moved in omega (arith, enough, before)

  -- Behind an incomplete packet there is none that is complete, and before it none that the
  -- search from there would not see.
  earlier :
      (o from : ℕ)
      → starts_with (b ∷ p) (drop o data_) ≡ true
      → length data_ < o + n
      → Gone (b ∷ p) data_ 0 from o
      → NoPacket (b ∷ p) n data_ from
  earlier o from occurs incomplete gone k after fits =
      elim (Bool-cases (starts_with (b ∷ p) (drop k data_))) [
        | inr absent ↦ absent
        | inl present ↦ gone k after (omega (arith, apart k o (omega arith) present occurs))
      ]

  last_complete-IsLast :
      (fuel o : ℕ)
      → o < fuel
      → starts_with (b ∷ p) (drop o data_) ≡ true
      → NoPacket (b ∷ p) n data_ (suc o)
      → IsLast (b ∷ p) n data_ (last_complete fuel (b ∷ p) n data_ (some o))
  unfolding last_complete rfind
  last_complete-IsLast zero o fueled occurs none_after = absurd (omega arith)
  last_complete-IsLast (suc fuel) o fueled occurs none_after =
      elim (Bool-cases (ltb (length data_) (o + n))) [
        | inr fits ↦
            rw (last_complete, fits) (ltb-false (length data_) (o + n) fits, occurs, none_after)
        | inl over ↦
            let incomplete = ltb→lt (length data_) (o + n) over in
            elim (Option-cases (rfind_at (b ∷ p) data_ 0 o)) [
              | inl gone ↦
                  rw (last_complete, over, gone)
                    (earlier o 0 occurs incomplete (rfind_at-none b p data_ 0 o gone))
              | inr (o', found) ↦
                  let f = rfind_at-some b p data_ 0 o {j = o'} found in
                  let e = f.place in
                  let same : f.at ≡ o' = omega (arith, e) in
                  let inside = f.inside in
                  rw (last_complete, over, found)
                    (last_complete-IsLast fuel o' (omega (arith, inside)) (rw same at f.occurs)
                      (earlier o (suc o') occurs incomplete (rw same at f.last)))
            ]
      ]

  -- The loop of the decoders ends on every capture, and its offset is that of the last complete
  -- packet: none of the captures' packets behind it has all its bytes. The magic is one whose
  -- first byte does not occur in it again, and a packet is no shorter than the magic.
  pub packet_offset-IsLast : IsLast (b ∷ p) n data_ (packet_offset (b ∷ p) n data_)
  unfolding rfind last_complete
  packet_offset-IsLast = elim (Option-cases (rfind_at (b ∷ p) data_ 0 (length data_))) [
    | inl gone ↦ rw gone (λ k after fits.
        rfind_at-none b p data_ 0 (length data_) gone k after (omega (arith, fits, long)))
    | inr (o, found) ↦
        let f = rfind_at-some b p data_ 0 (length data_) {j = o} found in
        let e = f.place in
        let same : f.at ≡ o = omega (arith, e) in
        let inside = f.inside in
        let last = rw same at f.last in
        rw found (
          last_complete-IsLast (length data_ + 1) o (omega (arith, inside)) (rw same at f.occurs)
            (λ k after fits. last k after (omega (arith, fits, long))))
  ]
