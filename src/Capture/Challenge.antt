-- ===== src/Capture/Challenge.antt =====
-- When the challenge byte goes out at the port.
use pipelined_core.Common.{
  ℕ, Bool, true, false, not, ◌&&◌, List, [], ◌∷◌, ◌++◌, length-append, ◌==◌, if◌then◌else◌,
  Bool-cases, and-eq-true, ◌⊎◌, Option-cases, Result, ok, err, >>=-eq-ok, ◌≡◌, inl, inr, refl,
  subst, ok_inj, sym, ap, ◌∙◌, arith,
}
use pipelined_core.Common.Bytes.{Bytes, find}
use pipelined_core.Common.Bytes.Append.{occurs-append}
use pipelined_core.Common.Bytes.First.{find-occurs, find-first}
use pipelined_core.Common.Bytes.Search.{find-bounds}
use pipelined_core.Board.{ready}
use pipelined_core.Capture.{
  Error, os_error, Round, idle, blocked, chunk, Capture, started, contains, challenge, round,
  rounds,
}

-- Once received, a text stays received.
contains-append : (p s t : Bytes) → contains p s ≡ true → contains p (s ++ t) ≡ true
contains-append p s t h = elim (Option-cases (find p s 0)) [
  | inl gone ↦ (let g = rw (contains, gone) at h in cc g)
  | inr (j, found) ↦
      let inside = (find-bounds p s 0 {j = j} found).1 in
      let (k, e, _) =
        find-first p (s ++ t) 0 j (omega arith) (omega (arith, inside, length-append {0} s t))
          (occurs-append p s t j inside (find-occurs p s 0 {j = j} found)) in
      rw (contains, e) refl
]

-- The byte is out exactly if READY has been received, and only once.
pub record Disciplined (c : Capture) : Type 0 where
  pub asked : c.sent ≡ contains ready c.received
  pub once : c.uart_out ≡ (if c.sent then b'K' ∷ [] else [])

-- The three ways through `challenge`.
by_tests :
    (asked one : Bool) (answered quiet : Capture) {c' : Capture}
    → ◌≡◌ {A = Result Error Capture}
        (if asked then (if one then ok answered else err os_error) else ok quiet)
        (ok c')
    → ((asked ≡ true) × (answered ≡ c')) ⊎ ((asked ≡ false) × (quiet ≡ c'))
by_tests true true answered quiet h = inl (refl, ok_inj h)
by_tests true false answered quiet h = cc
by_tests false one answered quiet h = inr (refl, ok_inj h)

quiet_lem : (sent has : Bool) → (not sent && has) ≡ false → (sent ≡ true → has ≡ true) → sent ≡ has
quiet_lem true has h k = sym (k refl)
quiet_lem false has h k = sym h

challenge-Disciplined :
    (written : ℕ) (c : Capture) {c' : Capture}
    → challenge written c ≡ ok c'
    → (c.sent ≡ true → contains ready c.received ≡ true)
    → c.uart_out ≡ (if c.sent then b'K' ∷ [] else [])
    → Disciplined c'
unfolding challenge
challenge-Disciplined written c h asked once =
    elim (by_tests (not c.sent && contains ready c.received) (written == 1) _ c h) [
      | inl (now, same) ↦
          let (unsent, has) = and-eq-true (not c.sent) (contains ready c.received) now in
          subst Disciplined same (record {
            asked = sym has;
            once = ap (λ out. out ++ b'K' ∷ []) (empty c.sent unsent c.uart_out once);
          })
      | inr (quiet, same) ↦
          subst Disciplined same (record {
            asked = quiet_lem c.sent (contains ready c.received) quiet asked;
            once = once;
          })
    ]
  where
    empty :
        (sent : Bool)
        → not sent ≡ true
        → (out : Bytes) → out ≡ (if sent then b'K' ∷ [] else [])
        → out ≡ []
    empty true unsent out e = cc
    empty false unsent out e = e

round-Disciplined :
    (r : Round) (c : Capture) {c' : Capture} {more : Bool}
    → round false r c ≡ ok (c', more)
    → Disciplined c
    → Disciplined c'
unfolding round
round-Disciplined idle c h d = subst Disciplined (ap (λ r. r.0) (ok_inj h)) d
round-Disciplined blocked c h d = subst Disciplined (ap (λ r. r.0) (ok_inj h)) d
round-Disciplined (chunk bytes written) c {c' = c'} h d =
    let given : Capture = record c { received = c.received ++ bytes; shown = c.shown ++ bytes } in
    let (next, challenged, h1) = >>=-eq-ok (challenge written given) _ h in
    let asked : c.sent ≡ true → contains ready (c.received ++ bytes) ≡ true =
      λ sent. contains-append ready c.received bytes (sym d.asked ∙ sent) in
    subst Disciplined (ap (λ r. r.0) (ok_inj h1))
      (challenge-Disciplined written given challenged asked d.once)

rounds-Disciplined :
    (rs : List Round) (c : Capture) {c' : Capture}
    → rounds false rs c ≡ ok c'
    → Disciplined c
    → Disciplined c'
unfolding rounds
rounds-Disciplined [] c h d = subst Disciplined (ok_inj h) d
rounds-Disciplined (r ∷ rs) c {c' = c'} h d =
    let (next, stepped, h1) = >>=-eq-ok (round false r c) _ h in
    let d1 = round-Disciplined r c {more = next.1} stepped d in
    elim (Bool-cases next.1) [
      | inl on ↦ rounds-Disciplined rs next.0 (rw on at h1) d1
      | inr off ↦ subst Disciplined (ok_inj (rw off at h1)) d1
    ]

-- However many rounds have passed, on whatever input, the challenge byte has gone out at the port
-- exactly if the payload's READY has been received, and it has gone out once.
pub rounds_discipline :
    (rs : List Round) {c : Capture} → rounds false rs started ≡ ok c → Disciplined c
unfolding find
rounds_discipline rs h = rounds-Disciplined rs started h (record { asked = refl; once = refl })
