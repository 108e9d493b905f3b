-- ===== src/Tests.antt =====
-- A bridge with one source and its entries, the parameters of the code at concrete functions, and runs
-- of email-worker/src and n8n on them.
pub mod Fixture
pub mod Feeds
mod Credentials
mod Documents
mod Permalinks
mod Links
pub mod Parameters
mod Enrichment
mod Digests
mod Workflow
mod Preferences
mod Sync
mod Signing
pub mod Html
mod Published
