-- ===== src/Domains.antt =====
-- apps/web/src/components/domains and pages/dashboard-page.tsx: the monitored domains.
pub mod DomainForm
pub mod Panel
pub mod Dashboard
mod Tests
