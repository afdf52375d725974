-- ===== src/Api.antt =====
-- services/api-service/src: the job service behind the HTTP routes, their limits and
-- authentication, and the webhooks.
pub mod Jobs
pub mod Controller
pub mod Refusals
pub mod RateLimit
pub mod Webhooks
pub mod Auth
