-- ===== src/Selftest.antt =====
-- scripts/check_cpu_coverage.py: runs of the simulated core, and what their coverage must be. The
-- simulator, the compiler and the file system are the parameter `Bench`.
pub mod Reports
pub mod Repeats
pub mod Traced
use pipelined_core.Common.{
  ℕ, zero, suc, Bool, true, false, not, ◌&&◌, ◌||◌, Option, none, some, List, [], ◌∷◌, ◌++◌, ◌==◌,
  if◌then◌else◌, Result, ok, err,
}
use pipelined_core.Common.Exec.{Effect, pure, raise, lift, exec_if, exec_raise_if, ◌>>=◌, ◌>>◌}
use pipelined_core.Common.Text.{Text, codes}
use pipelined_core.Common.Text.Lines.{splitlines}
use pipelined_core.Cached
use pipelined_core.Cached.{Simulator, answer}
use pipelined_core.Coverage.Keys.{Key}
use pipelined_core.Coverage.Model
use pipelined_core.Coverage.Model.{Groups, key_error, expected_bins, cross_partitions}
use pipelined_core.Coverage.Records.{read_counts}
use pipelined_core.Coverage.Report.{File, Report, summarize}
use pipelined_core.Lockstep.Event.{Event, Retire, cycle, done, unknown, retire}
use pipelined_core.Selftest.Reports.{
  Missing, report_eq, bins_of_group, bin_count, count_in, only_hits, all_once, bins_eq,
}

-- An exception of the simulator's answers or of the coverage report, a KeyError on a report, and
-- what the script itself raises.
pub data Error : Type 0 where
  simulator_error : Cached.Error → Error
  coverage_error : Model.Error → Error
  missing : Missing → Error
  no_trap : (image : Text) → Error
  tool_failed bad_exit timed_out check_failed no_files : Error
  accepted_incomplete : Error

pub record Bench : Type 1 where
  pub sim : Simulator
  -- `Popen` for the image, with the directory of the coverage files
  pub begin : (image directory : Text) → sim.World → sim.World
  -- `subprocess.run([DUT, option], check=True)`: whether the status is 0
  pub run_option : (image directory option : Text) → sim.World → Bool × sim.World
  -- `process.wait(timeout=5) == 0`; `none` is a timeout
  pub wait : sim.World → Option Bool × sim.World
  -- the end of the `with` block
  pub leave : sim.World → sim.World
  -- the compiler and objcopy on tests/core/hazard_priority.S
  pub assemble : sim.World → Bool × sim.World
  pub extract : sim.World → Bool × sim.World
  -- `directory.glob('*.dat')`
  pub files : (directory : Text) → sim.World → List File
  -- the content of tests/core/cpu_coverage.sv
  pub model : Text

abbrev pub is_trap : Event → Bool
is_trap (retire e) = e.trap
is_trap _ = false

abbrev pub as_simulator : {A : Type 0} → Result Cached.Error A → Result Error A
as_simulator (ok a) = ok a
as_simulator (err e) = err (simulator_error e)

abbrev pub as_coverage : {A : Type 0} → Result Model.Error A → Result Error A
as_coverage (ok a) = ok a
as_coverage (err e) = err (coverage_error e)

abbrev pub as_missing : {A : Type 0} → Result Missing A → Result Error A
as_missing (ok a) = ok a
as_missing (err e) = err (missing e)

-- `'\n'.join(lines[:-1]) + '\n'`
abbrev joined : List Text → Text
joined [] = []
joined (line ∷ []) = []
joined (line ∷ next ∷ []) = line
joined (line ∷ next ∷ more ∷ lines) = line ++ (10 ∷ joined (next ∷ more ∷ lines))

abbrev pub without_last : Text → Text
without_last content = joined (splitlines content) ++ 10 ∷ []

-- The `try` block on the corrupt file: a ValueError is what is wanted, a KeyError is not caught.
abbrev pub rejected : {A : Type 0} → Result Model.Error A → Result Error (Unit {0})
rejected (ok a) = err accepted_incomplete
rejected (err (key_error name)) = err (coverage_error (key_error name))
rejected (err e) = ok tt

module _ (b : Bench) where
  abbrev pub Action : Type 0 → Type 0
  Action A = Effect Error b.sim.World A

  abbrev pub next_event : Action Event
  next_event w = let (r, w') = answer b.sim w in (as_simulator r, w')

  -- The rounds that are left, up to a retirement that traps.
  unfoldable pub steps : ℕ → Text → Action (Unit {0})
  unfolding ◌>>=◌
  steps zero image = λ w. (err (no_trap image), b.sim.kill w)
  steps (suc left) image = do
    event ← next_event
    elim (is_trap event) [ true ↦ pure tt | false ↦ steps left image ]

  abbrev exited_well : Option Bool → Result Error (Unit {0})
  exited_well none = err timed_out
  exited_well (some true) = ok tt
  exited_well (some false) = err bad_exit

  abbrev quit : Action (Unit {0})
  quit w = let (r, w') = Cached.write b.sim (codes "quit") w in (as_simulator r, w')

  -- The simulator stops on the trap itself.
  unfoldable pub stop : Action (Unit {0})
  unfolding ◌>>=◌
  stop = do quit; end ← λ w. (let (end, w') = b.wait w in (ok end, w')); lift (exited_well end)

  -- The body of the `with` block.
  unfoldable pub simulate : Text → Action (Unit {0})
  unfolding ◌>>=◌ steps
  simulate image = do steps 1000 image; stop

  abbrev inside : (image directory : Text) → Action (Unit {0})
  inside image directory w =
      let (r, w') = simulate image (b.begin image directory w) in (r, b.leave w')

  abbrev by_option : (image directory : Text) → Option Text → Action (Unit {0})
  by_option image directory none = inside image directory
  by_option image directory (some option) = λ w.
      let (fine, w') = b.run_option image directory option w in
      exec_raise_if (not fine) tool_failed w'

  unfoldable pub run : (image directory : Text) → Option Text → Action Report
  unfolding ◌>>=◌ simulate
  run image directory option = do
    by_option image directory option
    λ w. (as_coverage (summarize b.model b.model (b.files directory w)), w)

  abbrev assert : Bool → Action (Unit {0})
  assert condition = exec_raise_if (not condition) check_failed

  -- `assert report['groups'][group]['bins'][bin] == n`
  abbrev expect : (group bin : Text) → ℕ → Report → Action (Unit {0})
  expect group bin n report = lift (as_missing (count_in group bin report)) >>= λ k. assert (k == n)

  -- Hits of the cross are those of a load access fault.
  abbrev only_load_access : Report → Action (Unit {0})
  only_load_access report =
      lift (as_missing (bins_of_group (codes "hazard_trap_stage") report)) >>= λ bins.
      assert (only_hits (codes "_x_load_access_x_") bins)

  unfoldable pub check_fault : Report → Action (Unit {0})
  unfolding ◌>>=◌
  check_fault report = do
    expect (codes "trap") (codes "load_access") 1 report
    expect (codes "instruction") (codes "lw") 0 report
    expect (codes "instruction") (codes "sw") 1 report
    expect (codes "memory") (codes "lw_lane0") 0 report
    only_load_access report
    expect (codes "hazard_trap_stage") (codes "flowing_x_load_access_x_writeback_stage") 1 report

  unfoldable pub check_priority : Report → Action (Unit {0})
  unfolding ◌>>=◌
  check_priority report = do
    expect (codes "trap") (codes "load_access") 1 report
    expect (codes "trap") (codes "illegal_instruction") 0 report
    only_load_access report

  unfoldable pub check_divide : Report → Action (Unit {0})
  unfolding ◌>>=◌
  check_divide report = do
    bins ← lift (as_missing (bins_of_group (codes "divide") report))
    assert (all_once bins)

  unfoldable pub check_contention : Report → Action (Unit {0})
  unfolding ◌>>=◌
  check_contention report = do
    assert (report.files == 3)
    bins ← lift (as_missing (bins_of_group (codes "sc") report))
    assert (bins_eq bins ((codes "failure", 1) ∷ (codes "success", 1) ∷ []))
    expect (codes "instruction") (codes "lr_w") 2 report

  abbrev tool : (b.sim.World → Bool × b.sim.World) → Action (Unit {0})
  tool f w = let (fine, w') = f w in exec_raise_if (not fine) tool_failed w'

  -- `summarize(files + files) == fault`
  unfoldable pub check_repeats : Report → List File → Action (Unit {0})
  unfolding ◌>>=◌
  check_repeats fault files = do
    twice ← lift (as_coverage (summarize b.model b.model (files ++ files)))
    assert (report_eq twice fault)

  -- The first file without its last line.
  unfoldable pub check_incomplete : List File → Action (Unit {0})
  unfolding ◌>>=◌
  check_incomplete [] = raise no_files
  check_incomplete (file ∷ files) = do
    expected ← lift (as_coverage (expected_bins b.model))
    lift (rejected (read_counts (cross_partitions b.model) expected (without_last file.1)))

  unfoldable pub main : Action (Unit {0})
  unfolding ◌>>=◌ run
  main = do
    fault ← run (codes "exception_load_access") (codes "fault") none
    check_fault fault
    tool b.assemble
    tool b.extract
    priority ← run (codes "hazard_priority") (codes "priority") none
    check_priority priority
    divide ← run (codes "m_directed") (codes "divide") none
    check_divide divide
    contention ←
        run (codes "atomic_contention") (codes "contention") (some (codes "--contention-test"))
    check_contention contention
    files ← λ w. (ok (b.files (codes "fault") w), w)
    check_repeats fault files
    check_incomplete files
