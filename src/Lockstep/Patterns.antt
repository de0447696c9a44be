-- ===== src/Lockstep/Patterns.antt =====
-- The patterns and the cause table at the top of scripts/lockstep.py. `$` adds nothing under
-- `fullmatch`, which has to reach the end of the line by itself.
use pipelined_core.Common.{
  ℕ, Bool, false, ◌||◌, ◌&&◌, Option, none, some, List, [], ◌∷◌, ◌==◌, leb, if◌then◌else◌, ◌≡◌,
  refl,
}
use pipelined_core.Common.Text.{Text, codes, is_digit, is_hex, text_eq}
use pipelined_core.Regex.{
  Re, lit, cls, star, group, opt, plus, ◌⨾◌, is_space, is_word, not_newline, fullmatch, find_all,
}

-- `0x[0-9a-f]+`
abbrev pub hex : Re
hex = lit (codes "0x") ⨾ plus is_hex

abbrev pub spaces : Re
spaces = plus is_space

abbrev pub commit_re : Re
commit_re =
    lit (codes "core")
    ⨾ spaces
    ⨾ lit (codes "0:")
    ⨾ spaces
    ⨾ group (cls is_digit)
    ⨾ spaces
    ⨾ group hex
    ⨾ spaces
    ⨾ lit (codes "(")
    ⨾ group hex
    ⨾ lit (codes ")")
    ⨾ group (star not_newline)

abbrev pub trace_re : Re
trace_re =
    lit (codes "core")
    ⨾ spaces
    ⨾ lit (codes "0:")
    ⨾ spaces
    ⨾ group hex
    ⨾ spaces
    ⨾ lit (codes "(")
    ⨾ group hex
    ⨾ lit (codes ")")
    ⨾ star not_newline

-- The three patterns that are searched for start with `\b`, which `find_all` adds.
abbrev pub reg_re : Re
reg_re = lit (codes "x") ⨾ star is_space ⨾ group (plus is_digit) ⨾ spaces ⨾ group hex

-- `[a-zA-Z0-9_]`
abbrev pub csr_re : Re
csr_re =
    lit (codes "c") ⨾ group (plus is_digit) ⨾ lit (codes "_") ⨾ plus is_word ⨾ spaces ⨾ group hex

abbrev pub mem_re : Re
mem_re = lit (codes "mem") ⨾ spaces ⨾ group hex ⨾ opt (spaces ⨾ group hex)

abbrev is_name : ℕ → Bool
is_name c = (leb b'a' c && leb c b'z') || c == b'_'

abbrev pub trap_re : Re
trap_re =
    lit (codes "core")
    ⨾ spaces
    ⨾ lit (codes "0: exception ")
    ⨾ group (lit (codes "trap_") ⨾ plus is_name)
    ⨾ lit (codes ", epc ")
    ⨾ group hex

abbrev pub tval_re : Re
tval_re = lit (codes "core") ⨾ spaces ⨾ lit (codes "0:") ⨾ spaces ⨾ lit (codes "tval ") ⨾ group hex

-- `HEX`, with the whole text as its group
abbrev pub hex_re : Re
hex_re = group hex

abbrev pub causes : List (Text × ℕ)
causes =
    (codes "instruction_address_misaligned", 0)
    ∷ (codes "instruction_access_fault", 1)
    ∷ (codes "illegal_instruction", 2)
    ∷ (codes "breakpoint", 3)
    ∷ (codes "load_address_misaligned", 4)
    ∷ (codes "load_access_fault", 5)
    ∷ (codes "store_address_misaligned", 6)
    ∷ (codes "store_access_fault", 7)
    ∷ (codes "user_ecall", 8)
    ∷ (codes "supervisor_ecall", 9)
    ∷ (codes "machine_ecall", 11)
    ∷ (codes "instruction_page_fault", 12)
    ∷ (codes "load_page_fault", 13)
    ∷ (codes "store_page_fault", 15)
    ∷ []

unfoldable pub cause_in : List (Text × ℕ) → Text → Option ℕ
cause_in [] name = none
cause_in ((n, c) ∷ table) name = if text_eq n name then some c else cause_in table name

-- `CAUSES.get(name)`
abbrev pub cause_of : Text → Option ℕ
cause_of = cause_in causes

commit_test :
    fullmatch commit_re (codes "core   0: 3 0x80000004 (0x0000a103) x2  0x00000007 mem 0x80001000")
    ≡ some (
        codes "3"
        ∷ codes "0x80000004"
        ∷ codes "0x0000a103"
        ∷ codes " x2  0x00000007 mem 0x80001000"
        ∷ [])
unfolding fullmatch
commit_test = refl

mem_test :
    find_all mem_re false 0 (codes " x2  0x00000007 mem 0x80001000 0x12 mem  0x80")
    ≡ (codes "0x80001000" ∷ codes "0x12" ∷ []) ∷ (codes "0x80" ∷ []) ∷ []
unfolding find_all
mem_test = refl
