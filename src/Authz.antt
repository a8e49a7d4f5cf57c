-- ===== src/Authz.antt =====
-- Authentication and authorization: packages/authz/src/index.ts. `Types` holds the schemas of
-- principals and memberships, `Roles` and `Authorize` the decision on an action, `Workload` the
-- credentials of the corpus workers, `DevLogin` the adapter for local use.
pub mod Types
pub mod Roles
pub mod Authorize
pub mod Allowed
pub mod Duties
pub mod DevLogin
pub mod Workload
pub mod Examples
