-- ===== src/ApiError/Messages.antt =====
-- `localizedMessages` of apps/web/src/lib/api-error.ts, a table for each locale.
pub mod Chinese
pub mod Germanic
pub mod Iberian
pub mod Romance
pub mod EastAsian
pub mod Other
