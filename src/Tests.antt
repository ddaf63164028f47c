-- ===== src/Tests.antt =====
-- Runs of the modelled functions on concrete inputs, and the theorems at concrete data.
mod ShellwordsTests
mod AnalysisTests
mod PolicyTests
mod RegistryTests
mod InterceptorTests
mod SandboxTests
mod PlatformTests
mod LandlockTests
mod PypiTests
mod GuardTests
mod PackageTests
mod AikidoTests
mod AllowTests
mod SeatbeltTests
