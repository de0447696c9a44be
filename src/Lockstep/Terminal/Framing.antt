-- ===== src/Lockstep/Terminal/Framing.antt =====
-- Answers of Spike and the chunks in which they arrive.
use pipelined_core.Common.{
  ℕ, ◌≤◌, Bool, true, false, none, some, [], ◌∷◌, ◌++◌, length, length-append, ◌==◌, Bool-cases,
  Option-cases, ok, ◌≡◌, ◌≢◌, inl, inr, refl, sym, ap, some_inj, ==_iff, arith,
}
use pipelined_core.Common.Bytes.{Bytes}
use pipelined_core.Common.Text.{Text, codes}
use pipelined_core.Common.Text.Lines.{after_prefix}
use pipelined_core.Lockstep.Terminal.{
  Reads, at_end, ended, prompt_at, split_prompt, response_lines, response,
}

after_prefix_sound : (t s : Bytes) {r : Bytes} → after_prefix t s ≡ some r → s ≡ t ++ r
unfolding after_prefix
after_prefix_sound [] s h = some_inj h
after_prefix_sound (a ∷ t) [] h = cc h
after_prefix_sound (a ∷ t) (c ∷ s) {r = r} h = elim (Bool-cases (a == c)) [
  | inr other ↦ (let g = rw (after_prefix, other) at h in cc g)
  | inl same ↦
      let e = after_prefix_sound t s (rw (after_prefix, same) at h) in
      let f = (==_iff a c).0 same in λ i. sym f i ∷ e i
]

-- The end of an answer: a new line and the prompt.
abbrev pub prompt : Bytes
prompt = 13 ∷ 10 ∷ codes ": "

ended-none :
    (t s : Bytes)
    → ((r : Bytes) → s ≡ t ++ r → at_end r ≡ true → ⊥)
    → ended (after_prefix t s) ≡ none
ended-none t s absurd = elim (Option-cases (after_prefix t s)) [
  | inl e ↦ rw e refl
  | inr (r, e) ↦ elim (Bool-cases (at_end r)) [
    | inr open_end ↦ rw (e, open_end) refl
    | inl closed ↦ elim (absurd r (after_prefix_sound t s e) closed) [ ]
  ]
]

short_end : (r : Bytes) → at_end r ≡ true → length r ≤ 1
short_end [] h = omega arith
short_end (c ∷ []) h = omega arith
short_end (c ∷ d ∷ r) h = cc h

-- A prompt of at most three characters does not reach over an answer and its end.
too_short :
    (t : Bytes) (c : ℕ) (body r : Bytes)
    → length t ≤ 3
    → c ∷ (body ++ prompt) ≡ t ++ r
    → at_end r ≡ true
    → ⊥
too_short t c body r small e closed =
    omega
      (arith, small, short_end r closed, ap length e, length-append t r, length-append body prompt)

too_long : (c : ℕ) (body r : Bytes) → c ∷ (body ++ prompt) ≡ prompt ++ r → at_end r ≡ true → ⊥
too_long c [] r e closed = cc e
too_long c (d ∷ body) r e closed =
    omega (arith, short_end r closed, ap length e, length-append body prompt)

module _ (c : ℕ) (body : Bytes) where
  full_none : ended (after_prefix prompt (c ∷ (body ++ prompt))) ≡ none
  full_none = ended-none prompt (c ∷ (body ++ prompt)) (too_long c body)

  short_none : (t : Bytes) → length t ≤ 3 → ended (after_prefix t (c ∷ (body ++ prompt))) ≡ none
  short_none t small = ended-none t (c ∷ (body ++ prompt)) (λ r. too_short t c body r small)

  no_prompt : (start : Bool) → prompt_at start (c ∷ (body ++ prompt)) ≡ none
  unfolding prompt_at
  no_prompt true =
      rw
        (
          short_none (codes ": ") (omega arith),
          full_none,
          short_none (10 ∷ codes ": ") (omega arith),
        )
        refl
  no_prompt false = rw (full_none, short_none (10 ∷ codes ": ") (omega arith)) refl

split_prompt-prompt :
    (start : Bool) (body : Bytes) → split_prompt start (body ++ prompt) ≡ some (body, [])
unfolding split_prompt prompt_at after_prefix
split_prompt-prompt true [] = refl
split_prompt-prompt false [] = refl
split_prompt-prompt start (c ∷ body) =
    rw (split_prompt, no_prompt c body start, split_prompt-prompt false body) refl

-- The other ends: the line feed alone, and the prompt alone behind the answer before.
abbrev pub lf_prompt : Bytes
lf_prompt = 10 ∷ codes ": "

abbrev pub bare_prompt : Bytes
bare_prompt = codes ": "

-- The last character is no carriage return.
abbrev pub NoReturn : Bytes → Type 0
NoReturn [] = Unit
NoReturn (c ∷ []) = c ≢ 13
NoReturn (c ∷ d ∷ s) = NoReturn (d ∷ s)

module _ (c : ℕ) (body : Bytes) where
  lf_short : (t : Bytes) → length t ≤ 2 → ended (after_prefix t (c ∷ (body ++ lf_prompt))) ≡ none
  lf_short t small = ended-none t (c ∷ (body ++ lf_prompt)) (λ r e closed. omega (
    arith,
    small,
    short_end r closed,
    ap length e,
    length-append t r,
    length-append body lf_prompt,
  ))

lf_lf : (c : ℕ) (body : Bytes) → ended (after_prefix lf_prompt (c ∷ (body ++ lf_prompt))) ≡ none
lf_lf c body =
    ended-none lf_prompt (c ∷ (body ++ lf_prompt)) (λ r e closed. lf_lf_absurd c body r e closed)
  where
    lf_lf_absurd :
        (c : ℕ) (body r : Bytes) → c ∷ (body ++ lf_prompt) ≡ lf_prompt ++ r → at_end r ≡ true → ⊥
    lf_lf_absurd c [] r e closed = cc e
    lf_lf_absurd c (d ∷ body) r e closed =
        omega (arith, short_end r closed, ap length e, length-append body lf_prompt)

lf_crlf :
    (c : ℕ) (body : Bytes)
    → NoReturn (c ∷ body)
    → ended (after_prefix prompt (c ∷ (body ++ lf_prompt))) ≡ none
lf_crlf c body n =
    ended-none prompt (c ∷ (body ++ lf_prompt)) (λ r e closed. lf_crlf_absurd c body r n e closed)
  where
    lf_crlf_absurd :
        (c : ℕ) (body r : Bytes)
        → NoReturn (c ∷ body)
        → c ∷ (body ++ lf_prompt) ≡ prompt ++ r
        → at_end r ≡ true
        → ⊥
    lf_crlf_absurd c [] r n e closed = (let first : c ≡ 13 = cc e in n first)
    lf_crlf_absurd c (d ∷ []) r n e closed = cc e
    lf_crlf_absurd c (d ∷ f ∷ body) r n e closed =
        omega (arith, short_end r closed, ap length e, length-append body lf_prompt)

NoReturn-tail : (c : ℕ) (body : Bytes) → NoReturn (c ∷ body) → NoReturn body
NoReturn-tail c [] n = tt
NoReturn-tail c (d ∷ body) n = n

split_prompt-lf :
    (start : Bool) (body : Bytes)
    → NoReturn body
    → split_prompt start (body ++ lf_prompt) ≡ some (body, [])
unfolding split_prompt prompt_at after_prefix
split_prompt-lf true [] n = refl
split_prompt-lf false [] n = refl
split_prompt-lf start (c ∷ body) n =
    let quiet = lf_no_prompt start in
    rw (split_prompt, quiet, split_prompt-lf false body (NoReturn-tail c body n)) refl
  where
    lf_no_prompt : (start : Bool) → prompt_at start (c ∷ (body ++ lf_prompt)) ≡ none
    lf_no_prompt true =
        rw (lf_short c body (codes ": ") (omega arith), lf_crlf c body n, lf_lf c body) refl
    lf_no_prompt false = rw (lf_crlf c body n, lf_lf c body) refl

-- The ways in which an answer ends.
pub data Shows : Bytes → Bytes → Type 0 where
  crlf : (body : Bytes) → Shows (body ++ prompt) body
  lf : (body : Bytes) → NoReturn body → Shows (body ++ lf_prompt) body
  bare : Shows bare_prompt []

split_prompt-Shows :
    {whole body : Bytes} → Shows whole body → split_prompt true whole ≡ some (body, [])
unfolding split_prompt prompt_at after_prefix
split_prompt-Shows (crlf body) = split_prompt-prompt true body
split_prompt-Shows (lf body n) = split_prompt-lf true body n
split_prompt-Shows bare = refl

-- `whole` comes in, in any chunks, and none of its proper parts that end with a chunk shows a prompt;
-- `later` are the reads behind it.
pub data Arrives (whole : Bytes) : Bytes → Reads → Reads → Type 0 where
  there : {later : Reads} → Arrives whole whole later later
  more :
      {pending : Bytes} {b : ℕ} {chunk : Bytes} {reads later : Reads}
      → split_prompt true pending ≡ none
      → Arrives whole (pending ++ b ∷ chunk) reads later
      → Arrives whole pending ((b ∷ chunk) ∷ reads) later

module _ (decode : Bytes → Text) where
  response_found :
      (reads : Reads) (pending before rest : Bytes)
      → split_prompt true pending ≡ some (before, rest)
      → response decode reads pending ≡ (ok (response_lines (decode before)), (rest, reads))
  unfolding response
  response_found [] pending before rest e = rw (response, e) refl
  response_found ([] ∷ reads) pending before rest e = rw (response, e) refl
  response_found ((b ∷ chunk) ∷ reads) pending before rest e = rw (response, e) refl

  -- Where an answer and a prompt behind it arrive, in whatever chunks, and no part that ends with
  -- a chunk looks like the end of an answer, the response is the lines of the whole answer, nothing
  -- is left pending, and what comes later is not read.
  pub response-Shows :
      {whole body : Bytes} (pending : Bytes) {reads later : Reads}
      → Shows whole body
      → Arrives whole pending reads later
      → response decode reads pending ≡ (ok (response_lines (decode body)), ([], later))
  unfolding response
  response-Shows {whole} {body} pending {reads = reads} shows there =
      response_found reads pending body [] (split_prompt-Shows shows)
  response-Shows {whole} {body} pending shows (more {b = b} {chunk = chunk} quiet rest) =
      rw (response, quiet) (response-Shows (pending ++ b ∷ chunk) shows rest)
