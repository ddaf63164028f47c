-- ===== src/Registry.antt =====
-- proxy/interceptors: what the proxy makes of a request to a package registry.
pub mod Hosts
pub mod NpmUrl
pub mod Cache
pub mod Stats
pub mod Cooldown
pub mod NpmCooldown
pub mod CooldownReport
pub mod PypiUrl
pub mod PypiCooldown
pub mod Confirmation
pub mod Interceptor
pub mod NpmRegistry
pub mod PypiRegistry
