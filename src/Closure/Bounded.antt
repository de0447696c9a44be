-- ===== src/Closure/Bounded.antt =====
-- The number of runs of a search.
use pipelined_core.Common.{
  ℕ, zero, suc, ◌+◌, ◌*◌, ◌≤◌, Bool, true, false, none, some, List, [], ◌∷◌, length, length-append,
  Result, ok, err, Bool-cases, ◌≡◌, inl, inr, ap, subst, ◌==◌, some_inj, arith,
}
use pipelined_core.Common.Exec.{◌>>=◌, Post, Post-bind, Post-map}
use pipelined_core.Common.Text.{Text}
use pipelined_core.Coverage.Records.{among}
use pipelined_core.Coverage.Report.{Report, summarize}
use pipelined_core.Closure.Record.{Error, Tools, unhit}
use pipelined_core.Closure.{
  State, execute, attempts, search_one, search, finish, cases_of, close, begun, main,
}
use pipelined_core.Closure.Ends.{execute-Post, unhit-cases}

module _ (t : Tools) where
  abbrev runs : State t → ℕ
  runs s = length s.evidence.cases

  module _ (limit : ℕ) where
    abbrev Within : Error → State t → Type 0
    Within e s = runs s ≤ limit

    execute-Within :
        (seed : ℕ) (target : Text) (s : State t)
        → runs s + 1 ≤ limit
        → Post (λ (left : List Text) s'. runs s' ≤ runs s + 1) Within (execute t seed target none s)
    execute-Within seed target s below =
        execute-Post t Within _ seed target none s (λ e other w. omega (arith, below))
          (λ w. omega (arith, below, length-append s.evidence.cases (_ ∷ [])))
          (λ w updated gained after hash events read left.
            omega (arith, length-append s.evidence.cases (_ ∷ [])))

    attempts-Within :
        (left n : ℕ) (target : Text) (s : State t)
        → runs s + left ≤ limit
        → Post (λ (m : ℕ) s'. runs s' ≤ runs s + left) Within (attempts t left n target s)
    unfolding attempts
    attempts-Within zero n target s below = omega (arith, below)
    attempts-Within (suc left) n target s below =
        Post-bind (λ after s'. runs s' ≤ runs s + 1) (λ m s'. runs s' ≤ runs s + suc left) Within
          (execute t n target none) _ s (execute-Within n target s (omega (arith, below)))
          (λ after s' one. elim (Bool-cases (among target after)) [
            | inr hit ↦ rw hit (omega (arith, one))
            | inl still ↦ rw still (
                Post-map (λ m u. runs u ≤ runs s' + left) (λ m u. runs u ≤ runs s + suc left) Within
                  Within (attempts t left (n + 1) target s') (λ m u b. omega (arith, b, one))
                  (λ e u b. b) (attempts-Within left (n + 1) target s' (omega (arith, one, below))))
          ])

    search_one-Within :
        (missed : Bool) (n : ℕ) (target : Text) (s : State t)
        → runs s + 32 ≤ limit
        → Post (λ (m : ℕ) s'. runs s' ≤ runs s + 32) Within (search_one t missed n target s)
    search_one-Within true n target s below = attempts-Within 32 n target s below
    search_one-Within false n target s below = omega arith

    search-Within :
        (targets : List Text) (n : ℕ) (s : State t)
        → runs s + 32 * length targets ≤ limit
        → Post (λ (u : Unit {0}) s'. runs s' ≤ limit) Within (search t targets n s)
    unfolding search ◌>>=◌
    search-Within [] n s below = omega (arith, below)
    search-Within (target ∷ targets) n s below = elim (unhit-cases s.report) [
      | inl e ↦ rw (search, e) (omega (arith, below))
      | inr (bins, e) ↦
          rw (search, e)
            (Post-bind (λ m s'. runs s' ≤ runs s + 32) (λ u s'. runs s' ≤ limit) Within
              (search_one t (among target bins) n target) (λ m. search t targets m) s
              (search_one-Within (among target bins) n target s (omega (arith, below)))
              (λ m s' one. search-Within targets m s' (omega (arith, one, below))))
    ]

    finish-Within :
        (baseline : Report) (s : State t)
        → runs s ≤ limit
        → Post (λ (u : Unit {0}) s'. runs s' ≤ limit) Within (finish t baseline s)
    unfolding finish
    finish-Within baseline s below =
        elim (Bool-cases (s.report.cross_hit == s.report.cross_total)) [
          | inr off ↦ rw (finish, off) below
          | inl same ↦ rw (finish, same) below
        ]

    any_end :
        (o : Result Error (Unit {0}) × State t)
        → Post (λ (u : Unit {0}) s'. runs s' ≤ limit) Within o
        → runs o.1 ≤ limit
    any_end (ok u, s) b = b
    any_end (err e, s) b = b

  close-Within :
      (baseline : Report) (targets : List Text) (w : t.World)
      → unhit baseline ≡ ok targets
      → runs (close t none baseline (begun t w baseline)).1 ≤ 32 * length targets
  unfolding close cases_of ◌>>=◌
  close-Within baseline targets w e =
      let limit = 32 * length targets in
      let s = begun t w baseline in
      any_end limit (close t none baseline s) (
        Post-bind (λ u s'. runs s' ≤ limit) (λ u s'. runs s' ≤ limit) (Within limit)
          (cases_of t none baseline) (λ u. finish t baseline) s
          (rw (cases_of, e) (search-Within limit targets 1000 s (omega arith)))
          (λ u s' b. finish-Within limit baseline s' b))

  -- However a search ends, it has recorded at most 32 cases for each bin that the baseline leaves
  -- uncovered.
  pub main-length :
      (w : t.World) (r : Result Error (Unit {0})) {baseline : Report} {targets : List Text}
      {s : State t}
      → summarize t.model t.model (t.files w) ≡ ok baseline
      → unhit baseline ≡ ok targets
      → main t none w ≡ (r, some s)
      → length s.evidence.cases ≤ 32 * length targets
  unfolding main
  main-length w r {baseline = baseline} {targets = targets} on e h =
      subst (λ s'. runs s' ≤ 32 * length targets) (some_inj (ap (λ o. o.1) (rw (main, on) at h)))
        (close-Within baseline targets w e)
