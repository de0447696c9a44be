-- ===== src/Lockstep/Compare/Agreement.antt =====
-- What `differences` decides: an event and its reference agree, written out without the comparison.
use pipelined_core.Common.{
  ℕ, Bool, true, false, Option, none, some, List, [], ◌∷◌, ◌++◌, ==_iff, ==_refl, ◌∙◌, ok, ok_inj,
  >>=-eq-ok, ◌≡◌, refl, ◌↔◌, ap, arith,
}
use pipelined_core.Common.Text.{Text, int_16}
use pipelined_core.Common.Dict.{Dict, lookup, dict_eq_iff}
use pipelined_core.Lockstep.Event.{Retire, Effects, int_hex, dut_effects}
use pipelined_core.Lockstep.Reference.{Reference, Trap, Commit, trap, commit}
use pipelined_core.Lockstep.Compare.{
  Difference, unless_eq, list_eq, bool_eq, reference_pc, reference_trap, reference_insn,
  insn_difference, trap_differences, effect_differences, commit_differences, rest_differences,
  differences,
}

-- Dicts with the same entries, in any order.
abbrev pub SameDict : Dict ℕ → Dict ℕ → Type 0
SameDict a b = (k : ℕ) → lookup k a ≡ lookup k b

pub record SameEffects (dut : Effects) (c : Commit) : Type 0 where
  pub regs : SameDict dut.regs c.regs
  pub csrs : SameDict dut.csrs c.csrs
  pub reads : dut.reads ≡ c.reads
  pub writes : SameDict dut.writes c.writes

-- An instruction fetch that faulted has no instruction in Spike's report.
abbrev pub InsnAgrees : Text → Option ℕ → Type 0
InsnAgrees text none = (i : ℕ) × (int_16 text ≡ some i)
InsnAgrees text (some i) = int_16 text ≡ some i

abbrev pub RestAgrees : Retire → Reference → Type 0
RestAgrees event (trap t) = (int_16 event.cause ≡ some t.cause) × (int_16 event.tval ≡ some t.tval)
RestAgrees event (commit c) =
    (event.priv ≡ c.priv) × (dut : Effects) × (dut_effects event ≡ ok dut) × SameEffects dut c

pub record Agrees (event : Retire) (r : Reference) : Type 0 where
  pub pc : int_16 event.pc ≡ some (reference_pc r)
  pub is_trap : event.trap ≡ reference_trap r
  pub insn : InsnAgrees event.insn (reference_insn r)
  pub rest : RestAgrees event r

unless_eq-nil : (b : Bool) (d : Difference) → unless_eq b d ≡ [] → b ≡ true
unless_eq-nil true d h = refl
unless_eq-nil false d h = cc

append-eq-nil {ℓ} : {A : Type ℓ} (xs ys : List A) → xs ++ ys ≡ [] → (xs ≡ []) × (ys ≡ [])
append-eq-nil [] ys h = (refl, h)
append-eq-nil (x ∷ xs) ys h = cc

list_eq_iff : (xs ys : List ℕ) → (list_eq xs ys ≡ true) ↔ (xs ≡ ys)
list_eq_iff [] [] = (λ _. refl, λ _. refl)
list_eq_iff [] (y ∷ ys) = ground arith
list_eq_iff (x ∷ xs) [] = ground arith
list_eq_iff (x ∷ xs) (y ∷ ys) = ground (arith, list_eq_iff xs ys)

pub int_hex-ok : (s : Text) {v : ℕ} → int_hex s ≡ ok v → int_16 s ≡ some v
int_hex-ok s h = ground arith

trap_differences-nil :
    (event : Retire) (t : Trap) → trap_differences event t ≡ ok [] → RestAgrees event (trap t)
unfolding trap_differences
trap_differences-nil event t h = ground arith

SameEffects-nil : (dut : Effects) (c : Commit) → effect_differences dut c ≡ [] → SameEffects dut c
unfolding effect_differences
SameEffects-nil dut c h =
    let (h1, t1) = append-eq-nil _ _ h in
    let (h2, t2) = append-eq-nil _ _ t1 in
    let (h3, h4) = append-eq-nil _ _ t2 in
    record {
      regs = (dict_eq_iff dut.regs c.regs).0 (unless_eq-nil _ _ h1);
      csrs = (dict_eq_iff dut.csrs c.csrs).0 (unless_eq-nil _ _ h2);
      reads = (list_eq_iff dut.reads c.reads).0 (unless_eq-nil _ _ h3);
      writes = (dict_eq_iff dut.writes c.writes).0 (unless_eq-nil _ _ h4);
    }

effect_differences-SameEffects :
    (dut : Effects) (c : Commit) → SameEffects dut c → effect_differences dut c ≡ []
unfolding effect_differences
effect_differences-SameEffects dut c s = rw (
  (dict_eq_iff dut.regs c.regs).1 s.regs,
  (dict_eq_iff dut.csrs c.csrs).1 s.csrs,
  (list_eq_iff dut.reads c.reads).1 s.reads,
  (dict_eq_iff dut.writes c.writes).1 s.writes,
)

commit_differences-nil :
    (event : Retire) (c : Commit) → commit_differences event c ≡ ok [] → RestAgrees event (commit c)
unfolding commit_differences
commit_differences-nil event c h =
    let (dut, e, h') = >>=-eq-ok (dut_effects event) _ h in
    let (p, q) = append-eq-nil _ _ (ok_inj h') in
    ((==_iff event.priv c.priv).0 (unless_eq-nil _ _ p), dut, e, SameEffects-nil dut c q)

rest_differences-nil :
    (event : Retire) (r : Reference) → rest_differences event r ≡ ok [] → RestAgrees event r
rest_differences-nil event (trap t) h = trap_differences-nil event t h
rest_differences-nil event (commit c) h = commit_differences-nil event c h

rest_differences-agree :
    (event : Retire) (r : Reference) → RestAgrees event r → rest_differences event r ≡ ok []
unfolding trap_differences commit_differences
rest_differences-agree event (trap t) h = ground arith
rest_differences-agree event (commit c) (p, dut, e, s) =
    rw (e, effect_differences-SameEffects dut c s, p) (rw (==_refl c.priv))

insn_difference-nil :
    (text : Text) (i : ℕ) (o : Option ℕ)
    → int_16 text ≡ some i
    → insn_difference i o ≡ []
    → InsnAgrees text o
insn_difference-nil text i none e h = (i, e)
insn_difference-nil text i (some j) e h = ground arith

insn_difference-agree :
    (text : Text) (o : Option ℕ)
    → InsnAgrees text o
    → (i : ℕ) × (int_16 text ≡ some i) × (insn_difference i o ≡ [])
insn_difference-agree text none (i, e) = (i, e, refl)
insn_difference-agree text (some j) e = (j, e, ground arith)

bool_eq_iff : (a b : Bool) → (bool_eq a b ≡ true) ↔ (a ≡ b)
bool_eq_iff a b = ground arith

Agrees-nil : (event : Retire) (r : Reference) → differences event r ≡ ok [] → Agrees event r
unfolding differences
Agrees-nil event r h =
    let (pc, e1, h1) = >>=-eq-ok (int_hex event.pc) _ h in
    let (insn, e2, h2) = >>=-eq-ok (int_hex event.insn) _ h1 in
    let (rest, e3, h3) = >>=-eq-ok (rest_differences event r) _ h2 in
    let (p, t1) = append-eq-nil _ _ (ok_inj h3) in
    let (q, t2) = append-eq-nil _ _ t1 in
    let (i, s) = append-eq-nil _ _ t2 in
    let same = (==_iff pc (reference_pc r)).0 (unless_eq-nil _ _ p) in
    record {
      pc = int_hex-ok event.pc e1 ∙ ap some same;
      is_trap = (bool_eq_iff event.trap (reference_trap r)).0 (unless_eq-nil _ _ q);
      insn = insn_difference-nil event.insn insn (reference_insn r) (int_hex-ok event.insn e2) i;
      rest = rest_differences-nil event r (e3 ∙ ap ok s);
    }

-- `differences` reports nothing, and raises nothing, exactly when the event agrees with Spike: in the
-- pc, in being a trap or not and in the instruction where Spike shows one; for a trap in cause and
-- tval; otherwise in the privilege mode, the register and CSR writes, the read addresses and the
-- written bytes.
pub differences_iff :
    (event : Retire) (r : Reference) → (differences event r ≡ ok []) ↔ Agrees event r
unfolding differences
differences_iff event r = (
  Agrees-nil event r,
  λ a.
      let (i, e, n) = insn_difference-agree event.insn (reference_insn r) a.insn in
      rw (a.pc, e, rest_differences-agree event r a.rest, ==_refl, n)
        (rw ((bool_eq_iff event.trap (reference_trap r)).1 a.is_trap)),
)
