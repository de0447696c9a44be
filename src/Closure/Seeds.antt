-- ===== src/Closure/Seeds.antt =====
-- Rules for the loops of the search and of the replay.
use pipelined_core.Common.{
  ℕ, zero, suc, ◌+◌, Bool, true, false, none, some, List, [], ◌∷◌, ◌++◌, Bool-cases, inl, inr, sym,
  subst, append-nil, append_assoc,
}
use pipelined_core.Common.Exec.{◌>>=◌, Post, Post-bind}
use pipelined_core.Common.Text.{Text}
use pipelined_core.Coverage.Records.{among}
use pipelined_core.Closure.Record.{Error, no_cross_group, remains_unhit, Tools, Frozen}
use pipelined_core.Closure.{State, execute, attempts, search_one, search, replay}
use pipelined_core.Closure.Ends.{IsOther, unhit-cases}

module _ (t : Tools) (R : Error → State t → Type 0) where
  -- `I n s`: the next seed is `n`.
  module _ (I : ℕ → State t → Type 0)
      (kept : (e : Error) (n : ℕ) (s : State t) → I n s → IsOther e → R e s)
      (step : (n : ℕ) (target : Text) (s : State t)
        → I n s
        → Post (λ (left : List Text) s'. I (n + 1) s') R (execute t n target none s)) where
    attempts-Post :
        (left n : ℕ) (target : Text) (s : State t) → I n s → Post I R (attempts t left n target s)
    unfolding attempts
    attempts-Post zero n target s i = kept (remains_unhit target) n s i tt
    attempts-Post (suc left) n target s i =
        Post-bind (λ after s'. I (n + 1) s') I R (execute t n target none) _ s (step n target s i)
          (λ after s' i'. elim (Bool-cases (among target after)) [
            | inl still ↦ rw still (attempts-Post left (n + 1) target s' i')
            | inr hit ↦ rw hit i'
          ])

    search_one-Post :
        (missed : Bool) (n : ℕ) (target : Text) (s : State t)
        → I n s
        → Post I R (search_one t missed n target s)
    search_one-Post true n target s i = attempts-Post 32 n target s i
    search_one-Post false n target s i = i

    pub search-Post :
        (targets : List Text) (n : ℕ) (s : State t)
        → I n s
        → Post (λ (u : Unit {0}) s'. (m : ℕ) × I m s') R (search t targets n s)
    unfolding search ◌>>=◌
    search-Post [] n s i = (n, i)
    search-Post (target ∷ targets) n s i = elim (unhit-cases s.report) [
      | inl e ↦ rw (search, e) (kept no_cross_group n s i tt)
      | inr (bins, e) ↦
          rw (search, e)
            (Post-bind I (λ u s'. (m : ℕ) × I m s') R (search_one t (among target bins) n target)
              (λ m. search t targets m) s (search_one-Post (among target bins) n target s i)
              (λ m s' i'. search-Post targets m s' i'))
    ]

  -- `I done s`: the cases that have been replayed.
  module _ (I : List Frozen → State t → Type 0)
      (step : (done : List Frozen) (c : Frozen) (s : State t)
        → I done s
        → Post
            (λ (left : List Text) s'. I (done ++ c ∷ []) s')
            R
            (execute t c.seed c.target (some c.source_sha256) s)) where
    pub replay-Post :
        (done cases : List Frozen) (s : State t)
        → I done s
        → Post (λ (u : Unit {0}) s'. I (done ++ cases) s') R (replay t cases s)
    unfolding replay
    replay-Post done [] s i = subst (λ l. I l s) (sym (append-nil done)) i
    replay-Post done (c ∷ cases) s i =
        Post-bind (λ left s'. I (done ++ c ∷ []) s') (λ u s'. I (done ++ c ∷ cases) s') R
          (execute t c.seed c.target (some c.source_sha256)) (λ left. replay t cases) s
          (step done c s i)
          (λ left s' i'.
            subst (λ l. Post (λ (u : Unit {0}) w. I l w) R (replay t cases s'))
              (append_assoc done (c ∷ []) cases) (replay-Post (done ++ c ∷ []) cases s' i'))
