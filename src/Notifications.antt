-- ===== src/Notifications.antt =====
-- apps/web/src/components/notifications: the forms of the notifications page.
pub mod PolicyForm
pub mod EndpointForm
pub mod Page
mod Tests
