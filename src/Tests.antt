-- ===== src/Tests.antt =====
-- Runs of the code on concrete inputs, and the theorems at inputs that meet their hypotheses.
mod ManagerTests
mod LimiterTests
mod GateTests
mod ZentaoTests
mod ToolTests
mod ValueTests
mod BugTests
mod IndexTests
mod HistoryTests
mod AnalysisTests
