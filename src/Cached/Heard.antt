-- ===== src/Cached/Heard.antt =====
-- Runs of the simulator and the answers that they consist of.
use pipelined_core.Common.{
  ℕ, zero, suc, ◌<◌, Bool, true, false, Option, none, some, List, [], ◌∷◌, ◌++◌, length, ok,
  Bool-cases, Result-cases, ◌≡◌, ◌↔◌, ◌⊎◌, inl, inr, refl, sym, ap, ◌∙◌, subst, append-nil,
  append_assoc, ok_inj, arith,
}
use pipelined_core.Common.Exec.{branch, branch-false, ◌>>=◌, after, bind-eq-ok}
use pipelined_core.Common.Text.{Text, codes}
use pipelined_core.Lockstep.Event.{Retire, Event, cycle, done, unknown, retire}
use pipelined_core.Cached.{
  Simulator, line_of, keep, is_done, answer, rounds, ending, run, ends_in_trap,
}

module _ (sim : Simulator) where
  -- The answers to one "step" after the other, from a world to a world.
  pub data Hears : sim.World → List Event → sim.World → Type 0 where
    silence : {w : sim.World} → Hears w [] w
    hears :
        {w v u : sim.World} {e : Event} {es : List Event}
        → answer sim w ≡ (ok e, v)
        → Hears v es u
        → Hears w (e ∷ es) u

-- The retirements among the answers.
unfoldable pub retired : List Event → List Retire
retired [] = []
retired (cycle ∷ es) = retired es
retired (done ∷ es) = retired es
retired (unknown ∷ es) = retired es
retired (retire e ∷ es) = e ∷ retired es

-- None of the answers is the end.
abbrev pub Going : List Event → Type 0
Going [] = Unit
Going (e ∷ es) = (is_done e ≡ false) × Going es

keep-retired :
    (e : Event) (events : List Retire) (es : List Event)
    → keep e events ++ retired es ≡ events ++ retired (e ∷ es)
unfolding retired
keep-retired cycle events es = refl
keep-retired done events es = refl
keep-retired unknown events es = refl
keep-retired (retire e) events es = append_assoc events (e ∷ []) (retired es)

done_only : (e : Event) → is_done e ≡ true → e ≡ done
done_only cycle h = cc h
done_only done h = refl
done_only unknown h = cc h
done_only (retire e) h = cc h

keep-done : (e : Event) (events : List Retire) → is_done e ≡ true → keep e events ≡ events
keep-done cycle events h = refl
keep-done done events h = refl
keep-done unknown events h = refl
keep-done (retire e) events h = cc h

exited-cases :
    (o : Option (Bool × Text))
    → ((o ≡ none) ⊎ ((text : Text) × (o ≡ some (false, text))))
      ⊎ ((text : Text) × (o ≡ some (true, text)))
exited-cases none = inl (inl refl)
exited-cases (some (false, text)) = inl (inr (text, refl))
exited-cases (some (true, text)) = inr (text, refl)

module _ (sim : Simulator) where
  -- What `rounds` has heard when it returns.
  abbrev Transcript : ℕ → List Retire → sim.World → List Retire → sim.World → Type 0
  Transcript left events w out u =
      (es : List Event) × Hears sim w (es ++ done ∷ []) u
      × Going es
      × (length es < left)
      × (out ≡ events ++ retired es)

  rounds-Hears :
      (left : ℕ) (events : List Retire) (w : sim.World) {out : List Retire} {u : sim.World}
      → rounds sim left events w ≡ (ok out, u)
      → Transcript left events w out u
  unfolding rounds ◌>>=◌ retired
  rounds-Hears zero events w h = (let g = ap (λ o. o.0) h in cc g)
  rounds-Hears (suc left) events w {out = out} {u = u} h = elim (Result-cases (answer sim w).0) [
    | inl (e, a) ↦ (let g = ap (λ o. o.0) (rw (rounds, a) at h) in cc g)
    | inr (e, a) ↦
        let v = (answer sim w).1 in
        let heard : answer sim w ≡ (ok e, v) = λ i. (a i, v) in
        let h1 = rw (rounds, a) at h in
        elim (branch (is_done e) _ _ v h1) [
          | inl (end, h2) ↦
              let same : v ≡ u = ap (λ o. o.1) h2 in
              (
                [],
                subst (λ w'. Hears sim w (done ∷ []) w') same
                    (subst (λ d. Hears sim w (d ∷ []) v) (done_only e end) (hears heard silence)),
                tt,
                omega arith,
                sym (ok_inj (ap (λ o. o.0) h2))
                    ∙ (keep-done e events end ∙ sym (append-nil events)),
              )
          | inr (more, h2) ↦
              let (es, hs, going, below, same) = rounds-Hears left (keep e events) v h2 in
              (
                e ∷ es,
                hears heard hs,
                (more, going),
                omega (arith, below),
                same ∙ keep-retired e events es,
              )
        ]
  ]

  Hears-rounds :
      (left : ℕ) (events : List Retire) (w u : sim.World) (es : List Event)
      → Hears sim w (es ++ done ∷ []) u
      → Going es
      → length es < left
      → rounds sim left events w ≡ (ok (events ++ retired es), u)
  unfolding rounds ◌>>=◌ retired
  Hears-rounds zero events w u es hs going below =
      (let absurd : ⊥ = omega (arith, below) in elim absurd [ ])
  Hears-rounds (suc left) events w u [] (hears a silence) going below =
      rw (rounds, a) (λ i. (ok (sym (append-nil events) i), u))
  Hears-rounds (suc left) events w u (e ∷ es) (hears a hs) (more, going) below =
      rw (rounds, a)
        (branch-false (is_done e) _ _ _ more
          ∙ (Hears-rounds left (keep e events) _ u es hs going (omega (arith, below))
              ∙ ap (λ out. (ok out, u)) (keep-retired e events es)))

  -- The simulator, asked for one step after the
  -- other, answers "done" for the first
  -- time within 30000 steps, takes "quit", ends with status 0 and that output; the events are the retirements before "done", the last of them a trap.
  pub record Ran (image : Text) (environment : List (Text × Text)) (w : sim.World)
      (events : List Retire) (stderr : Text) : Type 0 where
    pub answers : List Event
    pub last : sim.World
    pub heard : Hears sim (sim.start image environment w) (answers ++ done ∷ []) last
    pub going : Going answers
    pub in_time : length answers < 30000
    pub all_events : events ≡ retired answers
    pub open_pipe : (sim.send (line_of (codes "quit")) last).0 ≡ true
    pub status_zero :
        (sim.communicate (sim.send (line_of (codes "quit")) last).1).0 ≡ some (true, stderr)
    pub trapped : ends_in_trap events ≡ true

  ending-eq-ok :
      (es : List Retire) (v : sim.World) {events : List Retire} {stderr : Text}
      → (ending sim es v).0 ≡ ok (events, stderr)
      → ((sim.send (line_of (codes "quit")) v).0 ≡ true)
        × ((sim.communicate (sim.send (line_of (codes "quit")) v).1).0 ≡ some (true, stderr))
        × (ends_in_trap es ≡ true)
        × (es ≡ events)
  unfolding ending ◌>>=◌
  ending-eq-ok es v h = elim (Bool-cases (sim.send (line_of (codes "quit")) v).0) [
    | inr shut ↦ (let g = rw (ending, shut) at h in cc g)
    | inl open_pipe ↦
        elim (exited-cases (sim.communicate (sim.send (line_of (codes "quit")) v).1).0) [
          | inl (inl c) ↦ (let g = rw (ending, open_pipe, c) at h in cc g)
          | inl (inr (text, c)) ↦ (let g = rw (ending, open_pipe, c) at h in cc g)
          | inr (text, c) ↦ elim (Bool-cases (ends_in_trap es)) [
            | inr quiet ↦ (let g = rw (ending, open_pipe, c, quiet) at h in cc g)
            | inl trapped ↦
                let g = rw (ending, open_pipe, c, trapped) at h in
                (
                  open_pipe,
                  c ∙ ap (λ o. some (true, o.1)) (ok_inj g),
                  trapped,
                  ap (λ o. o.0) (ok_inj g),
                )
          ]
        ]
  ]

  ending-ok :
      (es : List Retire) (v : sim.World) (stderr : Text)
      → (sim.send (line_of (codes "quit")) v).0 ≡ true
      → (sim.communicate (sim.send (line_of (codes "quit")) v).1).0 ≡ some (true, stderr)
      → ends_in_trap es ≡ true
      → (ending sim es v).0 ≡ ok (es, stderr)
  unfolding ending ◌>>=◌
  ending-ok es v stderr open_pipe c trapped = rw (ending, open_pipe, c, trapped) refl

  -- `run` returns the events and the output of exactly the runs that `Ran` describes.
  pub run_iff :
      (image : Text) (environment : List (Text × Text)) (w : sim.World) (events : List Retire)
      (stderr : Text)
      → ((run sim image environment w).0 ≡ ok (events, stderr))
        ↔ Ran image environment w events stderr
  unfolding run ◌>>=◌
  run_iff image environment w events stderr = (there, back)
    where
      there :
          (run sim image environment w).0 ≡ ok (events, stderr)
          → Ran image environment w events stderr
      there h =
          let s = sim.start image environment w in
          let (es, heard, h1) = bind-eq-ok (rounds sim 30000 []) (ending sim) s h in
          let (answers, hs, going, below, all) =
            rounds-Hears 30000 [] s (λ i. (heard i, (rounds sim 30000 [] s).1)) in
          let (open_pipe, status, trapped, same) = ending-eq-ok es (rounds sim 30000 [] s).1 h1 in
          record {
            answers = answers;
            last = (rounds sim 30000 [] s).1;
            heard = hs;
            going = going;
            in_time = below;
            all_events = sym same ∙ all;
            open_pipe = open_pipe;
            status_zero = status;
            trapped = ap ends_in_trap (sym same) ∙ trapped;
          }

      back :
          Ran image environment w events stderr
          → (run sim image environment w).0 ≡ ok (events, stderr)
      back r =
          let heard =
            Hears-rounds 30000 [] (sim.start image environment w) r.last r.answers r.heard r.going
              r.in_time in
          ap (λ o. (after o.0 (ending sim) o.1).0) heard
          ∙ (ending-ok (retired r.answers) r.last stderr r.open_pipe r.status_zero
                (ap ends_in_trap (sym r.all_events) ∙ r.trapped)
              ∙ ap (λ es. ok (es, stderr)) (sym r.all_events))
