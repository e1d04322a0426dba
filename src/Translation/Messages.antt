-- ===== src/Translation/Messages.antt =====
-- The dictionaries of apps/web/src/lib/i18n.tsx, one for each locale.
pub mod English
pub mod SimplifiedChinese
pub mod TraditionalChinese
pub mod French
pub mod Russian
pub mod Japanese
pub mod Spanish
pub mod German
pub mod Arabic
pub mod Portuguese
pub mod Korean
pub mod Hindi
pub mod Italian
