-- ===== src/Closure/Complete.antt =====
-- The search, the replay and the end of scripts/close_cpu_cross_coverage.py.
use pipelined_core.Common.{
  ℕ, zero, suc, ◌+◌, Option, none, some, List, [], ◌∷◌, ◌++◌, map, length, Bool-cases, ==_iff, ◌==◌,
  ◌≡◌, inl, inr, refl, sym, ap, ◌∙◌, subst, length-append, arith,
}
use pipelined_core.Common.Exec.{◌>>=◌, Post, Post-bind, Post-map}
use pipelined_core.Common.Text.{Text, text_eq}
use pipelined_core.Coverage.Model.{cross_group}
use pipelined_core.Coverage.Report.{Report, Group, find_group, hit_of, total_of}
use pipelined_core.Coverage.Sums.{AddsUp, AllBalanced-find_group}
use pipelined_core.Generate.{numbers}
use pipelined_core.Closure.Record.{Tools, Case, Frozen, Manifest}
use pipelined_core.Closure.{State, execute, search, replay, finish, cases_of, close}
use pipelined_core.Closure.Ends.{unhit-cases}
use pipelined_core.Closure.Seeds.{search-Post, replay-Post}
use pipelined_core.Closure.Cases.{
  AllPassed, case_key, frozen_key, case_seed, Sound, Ended-other, Raised, execute-Sound,
}

-- The seeds are those from 1000 on, one for each case.
abbrev pub Counted : List Case → Type 0
Counted cs = map case_seed cs ≡ numbers 1000 (length cs)

map-append : {A B : Type 0} (f : A → B) (xs ys : List A) → map f (xs ++ ys) ≡ map f xs ++ map f ys
map-append f [] ys = refl
map-append f (x ∷ xs) ys = ap (λ zs. f x ∷ zs) (map-append f xs ys)

numbers-suc : (a n : ℕ) → numbers a n ++ (a + n) ∷ [] ≡ numbers a (suc n)
numbers-suc a zero = ap (λ k. k ∷ []) (omega arith)
numbers-suc a (suc n) =
    let e : a + 1 + n ≡ a + suc n = omega arith in
    ap (λ ks. a ∷ ks)
      (subst (λ k. numbers (a + 1) n ++ k ∷ [] ≡ numbers (a + 1) (suc n)) e (numbers-suc (a + 1) n))

Counted-append :
    (cs : List Case) (c : Case) (seed : ℕ)
    → Counted cs
    → case_seed c ≡ seed
    → seed ≡ 1000 + length cs
    → Counted (cs ++ c ∷ [])
Counted-append cs c seed h e n =
    map-append case_seed cs (c ∷ [])
    ∙ (let more : suc (length cs) ≡ length (cs ++ c ∷ []) =
          sym (length-append cs (c ∷ []) ∙ omega arith) in
        rw (h, e, n) (numbers-suc 1000 (length cs) ∙ ap (numbers 1000) more))

-- What a script that ends without an error has reached.
pub record Finished {t : Tools} (s : State t) : Type 0 where
  pub passed : AllPassed s.evidence.cases
  pub saved : s.written ≡ some s.evidence
  pub closed : s.report.cross_hit ≡ s.report.cross_total
  pub none_left :
      (g : Group) → find_group cross_group s.report.groups ≡ some g → length g.uncovered ≡ 0

abbrev pub Anything : List Case → Type 0
Anything cs = Unit

none_left :
    (report : Report)
    → AddsUp report
    → report.cross_hit ≡ report.cross_total
    → (g : Group) → find_group cross_group report.groups ≡ some g
    → length g.uncovered ≡ 0
none_left report adds same g found =
    let hit = adds.cross_hit ∙ ap hit_of found in
    let total = adds.cross_total ∙ ap total_of found in
    omega (
      arith,
      same,
      hit,
      total,
      AllBalanced-find_group cross_group report.groups found adds.balanced,
    )

module _ {t : Tools} where
  -- Between two cases of a search, before seed `n`.
  abbrev pub Searched : ℕ → State t → Type 0
  Searched n s = Sound s × (Counted s.evidence.cases × (n ≡ 1000 + length s.evidence.cases))

  search-Searched :
      (targets : List Text) (n : ℕ) (s : State t)
      → Searched n s
      → Post (λ (u : Unit {0}) s'. (m : ℕ) × Searched m s') (Raised Counted) (search t targets n s)
  search-Searched =
      search-Post t (Raised Counted) Searched
        (λ e n s i other. (Ended-other e s other i.0.passed, i.1.0))
        (λ n target s i.
          let more : (c : Case) → case_key c ≡ (n, target) → Counted (s.evidence.cases ++ c ∷ []) =
            λ c e. Counted-append s.evidence.cases c n i.1.0 (ap (λ k. k.0) e) i.1.1 in
          Post-map _ _ _ _ (execute t n target none s)
            (λ left s' done.
              let (c, key, e) = done.1 in
              (
                done.0,
                (
                  subst Counted (sym e) (more c key),
                  omega (arith, i.1.1, ap length e, length-append s.evidence.cases (c ∷ [])),
                ),
              ))
            (λ e s' r. r) (execute-Sound Counted n target none s i.0 i.1.0 more))

  -- Between two cases of a replay.
  abbrev pub Replayed : List Frozen → State t → Type 0
  Replayed done s = Sound s × (map case_key s.evidence.cases ≡ map frozen_key done)

  replay-Replayed :
      (cases : List Frozen) (s : State t)
      → Replayed [] s
      → Post (λ (u : Unit {0}) s'. Replayed cases s') (Raised Anything) (replay t cases s)
  replay-Replayed cases s i =
      replay-Post t (Raised Anything) Replayed
        (λ done c s i.
          Post-map _ _ _ _ (execute t c.seed c.target (some c.source_sha256) s)
            (λ left s' end.
              let (d, key, e) = end.1 in
              (
                end.0,
                ap (map case_key) e
                    ∙ (map-append case_key s.evidence.cases (d ∷ [])
                        ∙ (ap (λ ks. ks ++ case_key d ∷ []) i.1
                            ∙ (ap (λ k. map frozen_key done ++ k ∷ []) key
                                ∙ sym (map-append frozen_key done (c ∷ []))))),
              ))
            (λ e s' r. r)
            (execute-Sound Anything c.seed c.target (some c.source_sha256) s i.0 tt (λ c e. tt)))
        [] cases s i

  module _ (T : List Case → Type 0) where
    finish-Finished :
        (baseline : Report) (s : State t)
        → Sound s
        → T s.evidence.cases
        → Post
            (λ (u : Unit {0}) s'. Finished s' × T s'.evidence.cases)
            (Raised T)
            (finish t baseline s)
    unfolding finish
    finish-Finished baseline s sound known =
        elim (Bool-cases (s.report.cross_hit == s.report.cross_total)) [
          | inr off ↦ rw (finish, off) (sound.passed, known)
          | inl same ↦
              let closed = (==_iff s.report.cross_hit s.report.cross_total).0 same in
              rw (finish, same)
                (
                  record {
                    passed = sound.passed;
                    saved = refl;
                    closed = closed;
                    none_left = none_left s.report sound.adds closed;
                  },
                  known,
                )
        ]

    pub close-Finished :
        (T' : List Case → Type 0)
        → ((cs : List Case) → T cs → T' cs)
        → (frozen : Option Manifest) (baseline : Report) (s : State t)
        → Post
            (λ (u : Unit {0}) s'. Sound s' × T s'.evidence.cases)
            (Raised T')
            (cases_of t frozen baseline s)
        → Post
            (λ (u : Unit {0}) s'. Finished s' × T s'.evidence.cases)
            (Raised T')
            (close t frozen baseline s)
    unfolding close
    close-Finished T' weaker frozen baseline s h =
        Post-bind _ _ _ (cases_of t frozen baseline) (λ u. finish t baseline) s h
          (λ u s' i.
            Post-map _ _ _ _ (finish t baseline s') (λ u w q. q)
              (λ e w r. (r.0, weaker w.evidence.cases r.1)) (finish-Finished baseline s' i.0 i.1))

  pub search-cases :
      (baseline : Report) (s : State t)
      → Searched 1000 s
      → Post
          (λ (u : Unit {0}) s'. Sound s' × Counted s'.evidence.cases)
          (Raised Counted)
          (cases_of t none baseline s)
  unfolding cases_of ◌>>=◌
  search-cases baseline s i = elim (unhit-cases baseline) [
    | inl e ↦ rw (cases_of, e) (i.0.passed, i.1.0)
    | inr (targets, e) ↦
        rw (cases_of, e)
          (Post-map _ _ _ _ (search t targets 1000 s) (λ u s' j. (j.1.0, j.1.1.0)) (λ e s' r. r)
            (search-Searched targets 1000 s i))
  ]

  pub replay-cases :
      (m : Manifest) (baseline : Report) (s : State t)
      → Replayed [] s
      → Post
          (λ (u : Unit {0}) s'. Replayed m.seeds s')
          (Raised Anything)
          (cases_of t (some m) baseline s)
  unfolding cases_of ◌>>=◌
  replay-cases m baseline s i = elim (Bool-cases (text_eq m.model_sha256 (t.sha256 t.model))) [
    | inr other ↦ rw (cases_of, other) (i.0.passed, tt)
    | inl same ↦ rw (cases_of, same) (replay-Replayed m.seeds s i)
  ]
