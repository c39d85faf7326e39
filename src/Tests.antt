-- ===== src/Tests.antt =====
-- A concrete platform, runs of the model, and the theorems at concrete inputs.
mod Disk
mod BundleRuns
mod BundleStages
mod SocksRuns
mod PacketRuns
mod LogRuns
mod ScriptRuns
mod HostRuns
mod TransportRuns
mod ConfigurationRuns
mod ModuleRuns
mod RuleRuns
mod TimerRuns
