-- ===== src/Cached/Scenarios.antt =====
-- `main` of scripts/verify_cached_core.py: the runs with their images and variables, and the checks.
use pipelined_core.Common.{
  ℕ, ◌+◌, Bool, true, false, not, ◌&&◌, ◌||◌, Option, none, some, List, [], ◌∷◌, ◌++◌, length, leb,
  ◌==◌, if◌then◌else◌, Result, ok, err, ◌>>=◌, ◌>>◌, raise_if, or_raise, map_result,
}
use pipelined_core.Common.Bytes.{find}
use pipelined_core.Common.Exec
use pipelined_core.Common.Exec.{pure, lift, exec_raise_if}
use pipelined_core.Common.Text.{Text, codes, text_eq, int_16, int_10, is_digit}
use pipelined_core.Common.Text.Lines.{backwards, startswith}
use pipelined_core.Lockstep.Event.{Retire}
use pipelined_core.Regex.{Re, lit, group, plus, ◌⨾◌, search_all}
use pipelined_core.Cached.{
  Error, check_failed, value_error, no_such_pc, no_such_event, tool_failed, Simulator, Action, run,
}

abbrev pub Check : Type 0
Check = List Retire → Text → Result Error (Unit {0})

-- `assert condition`
abbrev pub assert : Bool → Result Error (Unit {0})
assert condition = raise_if (not condition) check_failed

-- `int(text, 16)`
abbrev pub hex : Text → Result Error ℕ
hex s = or_raise (int_16 s) value_error

abbrev pub contains_text : Text → Text → Bool
contains_text p s = elim (find p s 0) [ none ↦ false | some _ ↦ true ]

abbrev pub with_pc : Text → List Retire → List Retire
with_pc pc [] = []
with_pc pc (e ∷ es) = if text_eq e.pc pc then e ∷ with_pc pc es else with_pc pc es

-- `I misses=(\d+) bypass=(\d+) D misses=(\d+) writebacks=(\d+) bypass=(\d+)`
abbrev pub traffic_re : Re
traffic_re =
    lit (codes "I misses=")
    ⨾ group (plus is_digit)
    ⨾ lit (codes " bypass=")
    ⨾ group (plus is_digit)
    ⨾ lit (codes " D misses=")
    ⨾ group (plus is_digit)
    ⨾ lit (codes " writebacks=")
    ⨾ group (plus is_digit)
    ⨾ lit (codes " bypass=")
    ⨾ group (plus is_digit)

abbrev traffic_fine : List ℕ → Bool
traffic_fine (i_misses ∷ i_bypass ∷ d_misses ∷ writebacks ∷ d_bypass ∷ []) =
    leb 4 i_bypass && (d_misses == 0 && (writebacks == 0 && d_bypass == 3))
traffic_fine _ = false

abbrev traffic_check : List (List Text) → Result Error (Unit {0})
traffic_check [] = err check_failed
traffic_check (groups ∷ more) =
    map_result (λ s. or_raise (int_10 s) value_error) groups >>= λ numbers.
    assert (traffic_fine numbers)

abbrev ten_twenty : List ℕ → Bool
ten_twenty (a ∷ b ∷ []) = a == 10 && b == 20
ten_twenty _ = false

-- The DMA pages that are executed uncached.
unfoldable pub uncached_check : Check
uncached_check events diagnostics =
    map_result (λ e. hex e.rd_data) (with_pc (codes "87800000") events) >>= λ values.
    assert (ten_twenty values) >> traffic_check (search_all traffic_re 0 diagnostics)

-- `by_pc[pc]`, where all the addresses are numerals; the last event of an address counts.
abbrev later : Option Retire → Retire → Option Retire
later none e = some e
later (some f) e = some f

unfoldable pub last_at : ℕ → List (ℕ × Retire) → Option Retire
last_at pc [] = none
last_at pc ((n, e) ∷ es) = let rest = last_at pc es in if n == pc then later rest e else rest

unfoldable pub by_pc : List Retire → Result Error (List (ℕ × Retire))
by_pc = map_result (λ e. hex e.pc >>= λ n. ok (n, e))

abbrev pub rd_at : ℕ → List (ℕ × Retire) → Result Error ℕ
rd_at pc table = or_raise (last_at pc table) no_such_pc >>= λ e. hex e.rd_data

-- A row of the first table, behind name and mode.
unfoldable pub contention_check : (mode : Text) (sc_pc load_pc status value : ℕ) → Check
unfolding by_pc last_at
contention_check mode sc_pc load_pc status value events diagnostics = by_pc events >>= λ table.
    rd_at (2147483648 + sc_pc) table >>= λ sc.
    assert (sc == status)
    >> (rd_at (2147483648 + load_pc) table >>= λ loaded.
        assert (loaded == value)
        >> assert (text_eq mode (codes "0") || contains_text (codes "DMA done=1") diagnostics))

-- `next(e for e in events if int(e["pc"], 16) == pc)`
unfoldable pub first_at : ℕ → List Retire → Result Error Retire
first_at pc [] = err no_such_event
first_at pc (e ∷ es) = let rest = first_at pc es in hex e.pc >>= λ n. if n == pc then ok e else rest

-- `next(e for e in events if int(e["mem_rmask"]) and e["insn"][-2:] == "03")`
unfoldable pub first_load : List Retire → Result Error Retire
first_load [] = err no_such_event
first_load (e ∷ es) =
    let rest = first_load es in
    if not (e.mem_rmask == 0) && startswith (codes "30") (backwards e.insn) then ok e else rest

unfoldable pub amo_check : (mode : Text) (old_value loaded_value : ℕ) → Check
unfolding first_at first_load
amo_check mode old_value loaded_value events diagnostics = first_at 2147483660 events >>= λ amo.
    first_load events >>= λ load. hex amo.rd_data >>= λ old.
    assert (old == old_value)
    >> (hex amo.mem_wdata >>= λ written.
        assert (written == old_value + 5)
        >> (hex load.rd_data >>= λ loaded.
            assert (loaded == loaded_value)
            >> (assert (contains_text (codes "DMA done=1") diagnostics)
                >> assert (
                    not (text_eq mode (codes "3"))
                    || contains_text (codes "blocked=1") diagnostics))))

abbrev first_rd : List Retire → Result Error ℕ
first_rd [] = err no_such_event
first_rd (e ∷ es) = hex e.rd_data

unfoldable pub dma_check : Check
dma_check events diagnostics =
    assert (contains_text (codes "DMA done=1") diagnostics)
    >> (first_rd (with_pc (codes "80000018") events) >>= λ value. assert (value == 6))

-- A row of the table of faults; `count` events, of which the last has no effect.
abbrev fault_event : (pc cause tval : ℕ) → Retire → Result Error (Unit {0})
fault_event pc cause tval fault = hex fault.pc >>= λ at.
    assert (at == 2147483648 + pc)
    >> (hex fault.cause >>= λ given.
        assert (given == cause)
        >> (hex fault.tval >>= λ value.
            assert (value == tval)
            >> assert (
                fault.mem_rmask == fault.mem_wmask
                && (fault.mem_wmask == fault.rd && fault.rd == 0))))

abbrev last_event : List Retire → Result Error Retire
last_event [] = err no_such_event
last_event (e ∷ []) = ok e
last_event (e ∷ f ∷ es) = last_event (f ∷ es)

unfoldable pub fault_check : (pc cause tval count : ℕ) → Check
fault_check pc cause tval count events diagnostics = last_event events >>= λ fault.
    assert (length events == count) >> fault_event pc cause tval fault

pub record Scenario : Type 0 where
  pub name : Text
  pub environment : List (Text × Text)
  pub check : Check

abbrev dma_mode : Text → List (Text × Text)
dma_mode mode = (codes "DMA_TEST_MODE", mode) ∷ []

abbrev contention : Text → Text → (sc_pc load_pc status value : ℕ) → Scenario
contention name mode sc_pc load_pc status value = record {
  name = name;
  environment = dma_mode mode;
  check = contention_check mode sc_pc load_pc status value;
}

abbrev amo : Text → (old_value loaded_value : ℕ) → Scenario
amo mode old_value loaded_value = record {
  name = codes "amo_contention";
  environment = dma_mode mode;
  check = amo_check mode old_value loaded_value;
}

abbrev fault : Text → Text → Text → (pc cause tval count : ℕ) → Scenario
fault name variable address pc cause tval count = record {
  name = name;
  environment = (variable, address) ∷ [];
  check = fault_check pc cause tval count;
}

-- The runs, in the order of `main`.
abbrev pub scenarios : List Scenario
scenarios =
    record { name = codes "uncached_executable"; environment = []; check = uncached_check }
    ∷ contention (codes "atomic_contention") (codes "1") 20 24 1 9
    ∷ contention (codes "atomic_contention") (codes "2") 20 24 0 6
    ∷ contention (codes "burst_reservation") (codes "4") 16 20 1 9
    ∷ contention (codes "reservation_store") (codes "0") 20 24 1 5
    ∷ amo (codes "3") 5 9
    ∷ amo (codes "5") 9 14
    ∷ record {
      name = codes "atomic_contention";
      environment = dma_mode (codes "6");
      check = dma_check;
    }
    ∷ fault (codes "smoke") (codes "FAIL_READ_ADDR") (codes "80000000") 0 1 2147483648 1
    ∷ fault (codes "fault_load") (codes "FAIL_READ_ADDR") (codes "80004000") 4 5 2147500032 2
    ∷ fault (codes "fault_store") (codes "FAIL_WRITE_ADDR") (codes "87800000") 8 7 2273312768 3
    ∷ fault (codes "fault_eviction") (codes "FAIL_WRITE_ADDR") (codes "80004000") 24 7 2147508224 7
    ∷ fault (codes "fault_fence") (codes "FAIL_WRITE_ADDR") (codes "80004000") 12 7 2147483660 4
    ∷ []

-- `build / f"{name}.hex"`
abbrev pub image : Text → Text → Text
image build name = build ++ (codes "/" ++ (name ++ codes ".hex"))

module _ (sim : Simulator) (build : Text) where
  unfoldable pub check_all : List Scenario → Action sim (Unit {0})
  unfolding Exec.◌>>=◌
  check_all [] = pure tt
  check_all (s ∷ ss) =
      Exec.◌>>=◌ (run sim (image build s.name) s.environment)
        (λ out. Exec.◌>>=◌ (lift (s.check out.0 out.1)) (λ _. check_all ss))

  abbrev self_test : Text → Text → Action sim (Unit {0})
  self_test option name w =
      let (fine, w') = sim.self_test option (image build name) w in
      exec_raise_if (not fine) tool_failed w'

  unfoldable pub main : Action sim (Unit {0})
  unfolding Exec.◌>>=◌ check_all
  main = Exec.◌>>=◌ (check_all scenarios) (λ _.
      Exec.◌>>=◌ (self_test (codes "--reset-test") (codes "smoke"))
        (λ _. self_test (codes "--hang-test") (codes "executable_page")))
