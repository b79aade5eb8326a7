-- ===== src/Api.antt =====
-- client/src/lib/api.ts, the REST client: requests with the silent refresh of an expired session
-- (`req`, `_attemptRefresh`), and the cache of bodies under their ETags (`getCachedJSON`).
pub mod Requests
pub mod Cache
mod Tests
