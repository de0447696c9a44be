-- ===== src/Coverage.antt =====
-- scripts/report_cpu_coverage.py: the bins of the coverage model, the counts that simulations have
-- recorded, and their merged report. Files are pairs of a resolved path and its content.
pub mod Keys
pub mod Model
pub mod Records
pub mod Report
pub mod Printed
pub mod Exact
pub mod Totals
pub mod Reading
pub mod Merge
pub mod Sums
pub mod Repeats
