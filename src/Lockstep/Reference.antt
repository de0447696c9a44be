-- ===== src/Lockstep/Reference.antt =====
-- `parse_spike_step` of scripts/lockstep.py: the event that the lines of one Spike step report.
use mathlib.Core.List.{filter_map}
use pipelined_core.Common.{
  ℕ, zero, suc, ◌+◌, ◌*◌, ◌/◌, ◌^◌, bit_and, false, not, Option, none, some, List, [], ◌∷◌, ◌++◌,
  length, get_elem?, ◌==◌, leb, if◌then◌else◌, ok, err, ◌>>=◌, ◌>>◌, raise_if, or_raise, map_result,
}
use pipelined_core.Common.Text.{Text, codes, int_16, int_10, text_eq}
use pipelined_core.Common.Dict.{Dict, from_pairs, insert}
use pipelined_core.Regex.{fullmatch, find_all, strip}
use pipelined_core.Lockstep.Error.{
  Checked, not_one_event, unmapped_trap, inconsistent_trap, missing_trap, no_write_size,
  no_read_size, value_error,
}
use pipelined_core.Lockstep.Insn.{load_size, store_size}
use pipelined_core.Lockstep.Patterns.{
  commit_re, trace_re, trap_re, tval_re, reg_re, csr_re, mem_re, cause_of,
}

pub record Trap : Type 0 where
  pub pc : ℕ
  pub insn : Option ℕ
  pub cause : ℕ
  pub tval : ℕ

pub record Commit : Type 0 where
  pub pc : ℕ
  pub insn : ℕ
  pub priv : ℕ
  pub regs : Dict ℕ
  pub csrs : Dict ℕ
  pub reads : List ℕ
  pub writes : Dict ℕ

-- The result's "trap" entry is the constructor. The "raw" lines, which only a report shows, are left
-- out.
pub data Reference : Type 0 where
  trap : Trap → Reference
  commit : Commit → Reference

-- `match.group(n)`; a pattern that matched has every group that is asked for.
unfoldable pub group_at : ℕ → List Text → Text
group_at n [] = []
group_at zero (g ∷ gs) = []
group_at (suc zero) (g ∷ gs) = g
group_at (suc (suc n)) (g ∷ gs) = group_at (suc n) gs

-- `int(match.group(n), 16)` and `int(match.group(n))`
abbrev pub hex_group : ℕ → List Text → Checked ℕ
hex_group n g = or_raise (int_16 (group_at n g)) value_error

abbrev pub dec_group : ℕ → List Text → Checked ℕ
dec_group n g = or_raise (int_10 (group_at n g)) value_error

-- `name.removeprefix(prefix)`
unfoldable pub remove_prefix : Text → Text → Text
remove_prefix prefix s = elim (strip prefix s) [ none ↦ s | some rest ↦ rest ]

-- A pair of an index in decimal and a value in hexadecimal, from `findall`.
abbrev index_value : List Text → Checked (ℕ × ℕ)
index_value g = do i ← dec_group 1 g; v ← hex_group 2 g; ok (i, v)

-- `(value >> (byte * 8)) & 0xff`
abbrev pub byte_of : ℕ → ℕ → ℕ
byte_of value byte = bit_and (value / 2 ^ (byte * 8)) 0xff

-- `range(addr, addr + n)`
unfoldable pub range_from : ℕ → ℕ → List ℕ
range_from addr zero = []
range_from addr (suc n) = addr ∷ range_from (addr + 1) n

-- `for byte in range(byte, byte + n): writes[addr + byte] = ...`
unfoldable pub write_bytes : ℕ → ℕ → ℕ → ℕ → Dict ℕ → Dict ℕ
write_bytes addr value byte zero writes = writes
write_bytes addr value byte (suc n) writes =
    write_bytes addr value (byte + 1) n (insert (addr + byte) (byte_of value byte) writes)

abbrev pub Memory : Type 0
Memory = List ℕ × Dict ℕ

-- One round of the loop over the `mem` entries.
unfoldable pub mem_entry : ℕ → List Text → Memory → Checked Memory
unfolding write_bytes range_from group_at
mem_entry insn g (reads, writes) = do
  addr ← hex_group 1 g
  elim (get_elem? g 1) [
    | some text ↦ do
      size ← or_raise (store_size insn) (no_write_size insn)
      value ← or_raise (int_16 text) value_error
      ok (reads, write_bytes addr value 0 size writes)
    | none ↦ do
      size ← or_raise (load_size insn) (no_read_size insn)
      ok (reads ++ range_from addr size, writes)
  ]

unfoldable pub mem_entries : ℕ → List (List Text) → Memory → Checked Memory
unfolding mem_entry
mem_entries insn [] m = ok m
mem_entries insn (g ∷ gs) m = do m' ← mem_entry insn g m; mem_entries insn gs m'

-- `sorted`
unfoldable pub insert_sorted : ℕ → List ℕ → List ℕ
insert_sorted a [] = a ∷ []
insert_sorted a (b ∷ xs) = if leb a b then a ∷ b ∷ xs else b ∷ insert_sorted a xs

unfoldable pub sorted : List ℕ → List ℕ
unfolding insert_sorted
sorted [] = []
sorted (a ∷ xs) = insert_sorted a (sorted xs)

-- `if traces and (...)`, `if not traces and ...`, and the entry "insn": from the trap's name, its
-- match `t` and the trace lines' matches.
unfoldable pub trap_insn : List Text → Text → List Text → List (List Text) → Checked (Option ℕ)
unfolding group_at
trap_insn lines name t [] =
    if text_eq name (codes "instruction_access_fault") then ok none else err (missing_trap lines)
trap_insn lines name t (first ∷ more) = do
  raise_if (not (length (first ∷ more) == 1)) (inconsistent_trap lines)
  trace_pc ← hex_group 1 first
  trap_pc ← hex_group 2 t
  raise_if (not (trace_pc == trap_pc)) (inconsistent_trap lines)
  i ← hex_group 2 first
  ok (some i)

-- `next((...), 0)` over the `tval` lines
unfoldable pub trap_tval : List (List Text) → Checked ℕ
unfolding group_at
trap_tval [] = ok 0
trap_tval (v ∷ more) = hex_group 1 v

-- The branch of a trap.
unfoldable pub parse_trap : List Text → List Text → Checked Reference
unfolding remove_prefix group_at trap_insn trap_tval
parse_trap lines t =
    let name = remove_prefix (codes "trap_") (group_at 1 t) in
    do
      cause ← or_raise (cause_of name) (unmapped_trap name)
      insn ← trap_insn lines name t (filter_map (fullmatch trace_re) lines)
      tval ← trap_tval (filter_map (fullmatch tval_re) lines)
      pc ← hex_group 2 t
      ok (trap (record { pc = pc; insn = insn; cause = cause; tval = tval }))

unfoldable pub parse_commit : List Text → Checked Reference
unfolding mem_entries sorted group_at
parse_commit m =
    let tail = group_at 4 m in
    do
      insn ← hex_group 3 m
      regs ← map_result index_value (find_all reg_re false 0 tail)
      csrs ← map_result index_value (find_all csr_re false 0 tail)
      (reads, writes) ← mem_entries insn (find_all mem_re false 0 tail) ([], [])
      pc ← hex_group 2 m
      priv ← dec_group 1 m
      ok (
          commit (record {
            pc = pc;
            insn = insn;
            priv = priv;
            regs = from_pairs regs;
            csrs = from_pairs csrs;
            reads = sorted reads;
            writes = writes;
          }))

-- After the check that there is one commit or one trap in all.
abbrev pub parse_one : List Text → List (List Text) → List (List Text) → Checked Reference
parse_one lines commits (t ∷ _) = parse_trap lines t
parse_one lines (m ∷ _) [] = parse_commit m
parse_one lines [] [] = err (not_one_event lines)

unfoldable pub parse_spike_step : List Text → Checked Reference
unfolding parse_trap parse_commit
parse_spike_step lines =
    let commits = filter_map (fullmatch commit_re) lines in
    let traps = filter_map (fullmatch trap_re) lines in
    do
      raise_if (not (length commits + length traps == 1)) (not_one_event lines)
      parse_one lines commits traps
