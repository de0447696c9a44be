-- ===== src/Lib.antt =====
-- The Python tools of the pipelined RISC-V core: the comparison of the simulated core with Spike,
-- the decoders and captures of the board bring-up, the packing and budget of the flash image, the
-- functional coverage with its closure, the checks of the cached core and the summary of reports.
--
-- Lockstep: scripts/lockstep.py. Patterns has the regular expressions, over the matcher of Regex;
-- Reference is `parse_spike_step` with `load_size` and `store_size` of Insn; Event is
-- `dut_effects` with the DUT's JSON events; Compare is `differences`; Spike is `LineStream.get`,
-- `write_command`, `align_spike`, `spike_step` and the register queries; State has the variables
-- of `run`, the fault injection and what an event that matches changes; Run is the loop of `run`,
-- what follows it, the `finally` clause and the exit status of `main`. The processes are the
-- parameter `Processes`: a world with the pipes' reads and writes, `json.loads`,
-- `SpikePTY.command` and the end of the DUT. A function that may raise returns a `Result`; one
-- that uses a process takes and returns the world. Terminal is `_response` and `command` of
-- `SpikePTY`, over the reads of its terminal; its child Session has the first prompt, the closing,
-- and the queue of `LineStream`. Memory relates the bytes of a store or a load in Spike's report
-- to the lanes of the DUT. Each event of the DUT (`dut_event`) is matched with one step of Spike
-- (`spike_step`).
--
-- Trace: scripts/decode_trace.py, the packets of the debug UART.
--
-- Flash: scripts/check_flash_layout.py, the checks of config/flash-layout.json and of the
-- artifacts; integers of the JSON file are Python's, with a sign (Common/Int).
--
-- Image: scripts/pack_checkpoint10_image.py, sizes, DDR image and ROM words; Files has the header
-- and the manifest, MemFile a reader of the `.mem` file.
--
-- Board: scripts/decode_checkpoint8.py and scripts/decode_checkpoint9.py, which share the search
-- for the last complete packet, with their output in Printed, and `verify` of
-- scripts/capture_checkpoint10.py.
--
-- Capture: the loops of scripts/capture_checkpoint10.py, with the challenge byte, and of
-- scripts/capture_checkpoint9.py. What the port brings until the deadline is a list of rounds.
--
-- Coverage: scripts/report_cpu_coverage.py. Model reads the bins of tests/core/cpu_coverage.sv,
-- Records the records of a simulation, Report merges them and Printed has the text of the report;
-- files are given with their content, and percentages by hit and total.
--
-- Closure: scripts/close_cpu_cross_coverage.py, on the reports of Coverage. What runs outside of
-- it, with the generator of the programs, is the parameter `Tools`; Record has the evidence. Ends
-- has the rule for `execute`, Seeds those for the loops, Cases the state between two cases,
-- Complete and Outcome the end of `main`, and Bounded the number of runs.
--
-- Cached: scripts/verify_cached_core.py. Its `run` is here, Scenarios has the checks and `main`,
-- Heard relates a run to the answers of the simulator, which is the parameter `Simulator`, and
-- Verified does so for `main`.
--
-- Summary: scripts/summarize_checkpoint9_reports.py. The lines that it selects are here, Cdc has
-- the loops over the clock domain crossings, Report the script, Printed its output, Inventory what
-- holds of the crossings.
--
-- Selftest: scripts/check_cpu_coverage.py, over the answers of Cached and the reports of Coverage.
-- Its parameter is `Bench`; Reports has what it looks up in a report.
--
-- Generate: tests/core/gen_rv32i.py and tests/core/gen_m.py, the random programs; `random.Random`
-- is the parameter `Rng`, with its documented ranges as the hypothesis `Documented`.
-- Generate/Hazards is tests/core/gen_hazard_traps.py, with `sample` in the parameter `Sampler`.
--
-- Common has the Boolean tests, lists, results, effects with exceptions, bytes, text, dictionaries
-- and numerals that the tools share, Regex a backtracking matcher for the patterns; Examples has
-- concrete inputs.
--
-- Fuel: the loop of `run` gets limit * (watchdog + 1) + watchdog + 1 rounds, as a retirement
-- follows after at most `watchdog` cycles; the trace decoder gets one round for each byte of the
-- capture and one more, as a packet has 6 bytes at least; the packet search gets one for each
-- offset, as every round ends the search earlier; `rom_words` gets one for each byte. The 32
-- attempts of Closure and the 30000 rounds of Cached are the code's own bounds. A loop that ran
-- out would end with `stuck`, or for the packet search with `none`.
--
-- Not modelled: the opening of pseudo terminals, the settings of serial devices, threads, the
-- clock and argument parsing; JSON, hashes, the texts of floating point numbers and what git
-- prints are parameters where the model uses them; the printed text of Lockstep, Trace, Flash,
-- Closure, Cached and Selftest beyond the values shown, and the text of the generators' lines; the
-- RTL, the test benches and the shell and Tcl scripts, which are in other languages.
pub mod Common
pub mod Regex
pub mod Lockstep
pub mod Trace
pub mod Flash
pub mod Image
pub mod Board
pub mod Capture
pub mod Coverage
pub mod Closure
pub mod Cached
pub mod Summary
pub mod Selftest
pub mod Generate
pub mod Examples
