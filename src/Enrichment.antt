-- ===== src/Enrichment.antt =====
-- The enrichment of articles: n8n/src/miniflux.js, n8n/src/enrich.js and the workflow of
-- n8n/scripts/build-article-enrichment.js.
pub mod Miniflux
pub mod Permalink
pub mod Request
pub mod Workflow
