-- ===== src/Lockstep/Insn.antt =====
-- `load_size` and `store_size` of scripts/lockstep.py.
use pipelined_core.Common.{ℕ, ◌/◌, ◌^◌, bit_and, Option, none, some, ◌==◌, if◌then◌else◌}

abbrev pub opcode : ℕ → ℕ
opcode insn = bit_and insn 0x7f

abbrev pub funct3 : ℕ → ℕ
funct3 insn = bit_and (insn / 2 ^ 12) 7

-- The number of bytes that a load, or an atomic access, reads.
unfoldable pub load_size : ℕ → Option ℕ
load_size insn =
    let f = funct3 insn in
    if opcode insn == 0x03
    then (if f == 0
        then some 1
        else if f == 1
        then some 2
        else if f == 2
        then some 4
        else if f == 4
        then some 1
        else if f == 5
        then some 2
        else none)
    else if opcode insn == 0x2f
    then (if f == 2 then some 4 else none)
    else none

unfoldable pub store_size : ℕ → Option ℕ
store_size insn =
    let f = funct3 insn in
    if opcode insn == 0x23
    then (if f == 0 then some 1 else if f == 1 then some 2 else if f == 2 then some 4 else none)
    else if opcode insn == 0x2f
    then (if f == 2 then some 4 else none)
    else none
