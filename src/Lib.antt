-- ===== src/Lib.antt =====
-- Certwarden's web client: the TypeScript program under apps/web/src.
--
-- The client is a React application over a JSON API. `apiRequest` (lib/api.ts) sends a request with
-- the session's token, asks the session provider (lib/auth.tsx) for a new one when the answer is 401,
-- and throws an `ApiError` for other failures. The router (app.tsx) shows a page by the route and the
-- session; the pages call the provider and `apiRequest`, and turn what is thrown into a text of the
-- user's language (lib/api-error.ts, lib/i18n.tsx).
--
-- What models what:
-- - Prelude and below: Boolean tests on native numbers, the list methods of JavaScript, and strings
--   as lists of UTF-16 code units with `trim`, `toLowerCase`, `startsWith`, `split` and `join`.
-- - Types: lib/types.ts, an interface as a record, a union of literals as a data type.
-- - Locale: lib/i18n.tsx, `normalizeLocale`, `detectLocale` and the state and effect of the provider.
-- - Translation: `interpolate`, `t` and `formatDateTime` of the same file. Translation/Messages has the
--   dictionaries, each in two lists, Translation/Lookup the provider's functions, Translation/Pieces
--   and Filling what `interpolate` is to do and that it does it, Translation/Parameters and Complete
--   that the dictionaries fit the calls. A right-to-left letter is written by its code.
-- - Api: lib/api.ts. A computation takes a `Client` (the module's variables, the session provider's
--   state, the replies still to come and the log of what was sent) to a result and a client. A
--   promise that rejects is `threw`, and the client outlives it.
-- - Auth: lib/auth.tsx, one computation for each callback (`refreshSession` is `refresh_session`);
--   Auth/Callbacks has the sequences of callbacks as a relation. Auth/Interleaved cuts a request at each
--   `await` of `fetch`: Schedules has any number of requests in flight, with their replies in any order.
-- - ApiError: lib/api-error.ts, with the table `message_to_code` and the texts of all locales.
-- - PublicStatus: lib/public-status.ts, and pages/tenant-status-page.tsx in PublicStatus/Page.
-- - Router: app.tsx, from a route and the session to a screen, and the links of
--   components/layout/app-shell.tsx.
-- - Pages: the handlers of pages/login-page.tsx, register-page.tsx, forgot-password-page.tsx,
--   reset-password-page.tsx and verify-email-page.tsx.
-- - Settings: pages/settings-page.tsx.
-- - Payloads: what the forms submit.
-- - Notifications: components/notifications/policy-form.tsx (PolicyForm), endpoint-form.tsx
--   (EndpointForm) and pages/notifications-page.tsx (Page, with what it shows in
--   Page/View). `Number(text)` is in Prelude/Text/Number: a number that is read is kept as the decimal
--   that was written.
-- - Domains: components/domains/domain-form.tsx (DomainForm, whose schema gives `none` for any issue),
--   components/domains/domain-panel.tsx (Panel) and pages/dashboard-page.tsx (Dashboard has its
--   handlers, Dashboard/View what it shows).
-- - Admin: pages/admin-page.tsx. Admin has the state and what a render derives, Admin/Paging the
--   laws of the pages, Admin/Selection the checkboxes, with the set that
--   they choose in Selection/Refinement, Admin/Actions the handlers for one tenant,
--   Admin/Bulk `runBulkAction`, and Admin/Events the controls with the states they lead to, in
--   Events/Stranded while no tenant fits the filter. Admin/View is what the page shows.
--
-- Choices. `apiRequest` calls itself once at most, with `retry` off, so that it needs no fuel:
-- `attempt` is that second call. The redirects of the router are followed with fuel; two are
-- enough, since no redirect leads to another. A number of the program is a natural number here where
-- it cannot be negative (ids, counts, pages). A handler runs to its end before the next event of the
-- same page.
-- `t` is a parameter of the pages; Pages/Texts gives them the program's.
--
-- Not modelled: markup and class names; react-router's matching of URLs, react-hook-form and TanStack
-- Query beyond when they call the handlers; parsing and formatting dates, which are parameters; the
-- rounding of decimals to doubles; and the server under apps/api, whose answers are any replies.
pub mod Prelude
pub mod Types
pub mod Payloads
pub mod Locale
pub mod Translation
pub mod Api
pub mod Auth
pub mod ApiError
pub mod PublicStatus
pub mod Router
pub mod Pages
pub mod Admin
pub mod Notifications
pub mod Domains
pub mod Settings
