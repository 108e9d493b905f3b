-- ===== src/Lib.antt =====
-- The bridge of agregado and the n8n workflows around it: the Cloudflare Worker of email-worker/src,
-- which serves newsletters as private Atom feeds and as permalinks, the newsletter ingest that fills
-- its stores, the enrichment of articles, the requests for a day's digest and the exchange of the
-- reader's preferences.
--
-- The parts and how they interact. A request comes to `fetch` (email-worker/src/index.ts), which
-- matches its path against two regular expressions. `handleFeedRequest` looks the source up in D1,
-- checks the request's Basic credentials against the stored hash (email-worker/src/basicAuth.ts),
-- reads the entries of the last 30 days and gives them to `buildAtomFeed`
-- (email-worker/src/atom.ts). `handlePermalinkRequest` looks an entry up by its permalink and answers
-- with its object from R2. The Worker writes nothing: the newsletter ingest of n8n
-- (n8n/scripts/build-workflow.js) takes a signed delivery (n8n/src/svix.js), builds an entry from its
-- mail (n8n/src/entry.js, n8n/src/identity.js, n8n/src/extract.js, n8n/src/sanitize.js), captures the images
-- of its page (n8n/src/assets.js), and writes the object and then the
-- row (n8n/src/sql.js). Miniflux reads the feeds and calls the enrichment
-- (n8n/scripts/build-article-enrichment.js, n8n/src/miniflux.js, n8n/src/enrich.js), which recognises
-- the bridge's permalinks. The daily digest (n8n/scripts/build-daily-digest.js, n8n/src/digest.js)
-- fetches a day's digest and mails it. The exchange of the reader's preferences
-- (n8n/scripts/build-preferences-sync.js, n8n/src/preferences.js) stores a document, asks for its
-- regeneration and uploads what changed.
--
-- The files, and the code of each:
--   Base, Base/*: numbers, lists, options and outcomes that all parts share.
--   Text, Text/*: JavaScript strings as lists of UTF-16 code units, and the methods and small regular
--     expressions that the code uses on them.
--   Platform/*: `toISOString`, `atob` and `btoa`, `TextEncoder`, `Headers.get` and
--     `encodeURIComponent`, as the standards of JavaScript and the web describe them. Dates are computed
--     on days since 1 March of the year -400000, before every valid date; Calendar and Iso relate them
--     to ECMA-262's number of a day and to a reader of dates. Platform/Crypto has the parameters of
--     Node.
--   Xml, Xml/Reading: a reader of the part of XML that a feed is written in, independent of the code
--     that writes it. It takes any text between quotes or brackets and the five named entities,
--     refuses the characters that XML 1.0 forbids, and normalises line ends and the white space in
--     attribute values as XML 1.0 does.
--   Atom/Escape, Atom/Feed: email-worker/src/atom.ts. `escape_xml` is `escapeXml`, `to_iso` is `toIso`,
--     `entry_link` is `entryLink`, `build_atom_feed` is `buildAtomFeed` with the clock's value for an
--     argument; a RangeError of `toISOString` is the outcome `throws range_error`. Feed/Document says
--     what a reader is to find, Feed/Reading and Feed/Clean how it does.
--   BasicAuth: email-worker/src/basicAuth.ts. `to_hex`, `hash_secret`, `timing_safe_equal`,
--     `verify_secret` and `parse_basic_auth` are the functions of those names.
--   Worker/Routes: the two regular expressions, with the backtracking of their greedy group.
--   Worker/Store: the rows, the three queries as the record `Engine`, and in Store/Sqlite an engine
--     that meets its laws.
--   Worker/Effects: an `async` function reads the world of the moment at which each `await` returns;
--     between two moments others may write. A call of D1 or R2 may be rejected.
--   Worker/Handlers: `unauthorized`, `handleFeedRequest`, `handlePermalinkRequest` and `fetch` of
--     email-worker/src/index.ts. Handlers/Feed, Handlers/Serving and Handlers/Refused are about the
--     feed, Handlers/Permalink about a permalink, Handlers/Routing about the routes.
--   Ingest: the writers of the stores, as steps between worlds. Ingest/Resolves, Ingest/Permalinks and
--     Ingest/Links carry the steps to the Worker's answers.
--   Html, Html/*: documents as cheerio gives them: a node is a text, an element, or another that the
--     code passes over, and a list of nodes is its first node with the rest in its last argument. The
--     contents of a `template` are in a node of type `root`, its child, which `walk` passes over.
--     `Cheerio` is the interface to the library.
--   Ingest/Sanitize, Ingest/Readable: n8n/src/sanitize.js. `strip_unsafe` is `stripUnsafe`,
--     `sanitize_for_permalink` is `sanitizeForPermalink`, `walk` is the function of that name in
--     `toReadableContent`, which is `to_readable_content`. Sanitize/Safe says what a safe element is,
--     Readable/Reader is a reader of the readable content, independent of the code that writes it, and
--     Readable/Shown takes the text out of it.
--   Ingest/Assets: n8n/src/assets.js. `is_beacon`, `plan_assets` and `inline_assets` are the functions of
--     those names; Assets/Fetches is about the loop over the plan, Assets/Capture about the document,
--     and Assets/Beacons says which images are beacons.
--   Ingest/Published: `content_of` joins the files of n8n/src that work on documents, and Published/Served
--     says what the Worker serves of what they make. Workflow/Contents and Workflow/Stored carry a
--     property of the rows and one of the pages through the nodes of the ingest.
--   Ingest/Svix, Ingest/MessageId, Ingest/Identity, Ingest/Extract, Ingest/Entry, Ingest/Signing:
--     `verifySvix`, `entryId`, `permalinkUuid`, `resolveCanonicalUrl`, `buildEntry` and `signS3Put` with
--     their helpers, under the names of the source. A run of the workflow needs of `signS3Put` only
--     whether both keys are set. Signing/Url says what a server checks of the signed PUT.
--   Ingest/Workflow: the nodes of n8n/scripts/build-workflow.js. A run stands at a node (`Node`), and
--     `advance` does one node with what the outside answers. A call of a service may fail before it has
--     an effect or behind it. Workflow/System lets any number of runs go on in any order (`Moves`), with
--     sources registered and services that go down; Workflow/Invariant says what a run relies on at each
--     node, Workflow/Writes that each node does a step of Ingest or none, Workflow/Served leads to the
--     page, Workflow/Runs is about one run.
--   Nodes, Ingest/Workflow/Graph, Digests/Workflow/Graph, Preferences/Workflow/Graph: the names, types and
--     connections of the nodes as the scripts declare them with n8n/scripts/lib/nodes.js. `follow` goes on
--     from a node along the output that its result selects, and the runs are checked against it. In the enrichment some nodes are taken together, so it has no such check.
--   Enrichment/Miniflux, Enrichment/Request: n8n/src/miniflux.js and `buildEnrichRequest`.
--     Enrichment/Permalink joins them to Ingest/Identity. Enrichment/Workflow: the nodes of
--     n8n/scripts/build-article-enrichment.js, in the same form as the ingest's.
--   Digests, Digests/Key: n8n/src/digest.js. Digests/Workflow: the nodes of
--     n8n/scripts/build-daily-digest.js. A retry takes the date and the URL of the request that was
--     built; fields of those names in the failed item, which the code would prefer, are left out.
--   Preferences: n8n/src/preferences.js, with Preferences/Normalize, Preferences/Notification,
--     Preferences/Changes and Preferences/Report on its functions. Preferences/Workflow: the nodes of
--     n8n/scripts/build-preferences-sync.js.
--   Tests: a bridge with one source, the parameters at concrete functions, and runs on them.
--
-- Bounds and fuel. `toString(16)` is written with the number itself for fuel, which is enough since
-- each digit divides it by 16, and `String(n)` likewise. All other recursion is structural. A run of a
-- workflow goes as many nodes as it is given answers, and ends within 10 nodes in the exchange of
-- preferences, 17 in the ingest, 26 in the digest, and 27 in the enrichment if there the retries are
-- counted. Code units have 16 bits where a property depends on it, and `^` and `|` read 32 bits. A
-- date is valid within 8640000000000000 ms of 1970; the product of seconds and 1000 is exact in a
-- double there, and dates beyond stay invalid.
--
-- Parameters. SHA-256 and HMAC-SHA-256 are functions to 32 bytes. The database engine is any function
-- with the laws that SQL gives the three queries: the row found has the key, a missing row has no
-- match, the rows selected are those that match, and they are ordered. `new URL` is any function from
-- a request's URL to an origin and a path. `toLowerCase` is any function that moves the capitals of an
-- ASCII text, the case folding of a regular expression likewise. `Number`, the base64 decoder of
-- `Buffer`, `Date.parse` and `JSON.parse` are any functions; cheerio's list of a document's links too.
-- cheerio's parser gives any document that has a head, its printer any text, `remove`, `each` and
-- `prepend` have laws, `exists` and `contents` are any functions. The fetch of an asset is any
-- function of its URL. The steps of the writers take any function for the permalink of an id;
-- Ingest/Links and Workflow/Served put `permalinkUuid` there. What a service answers, and whether the
-- item behind a failed call keeps its fields, is an argument of each node.
--
-- Not modelled. The runtime's own code, and email-worker/worker-configuration.d.ts, which is generated
-- and declares it. Streaming of an object's body: it is a text here. How cheerio parses a page that it
-- has printed: the page is parsed again for the capture of its assets, and nothing is assumed of the
-- document that this gives. The ids, parameters and positions that describe the nodes to n8n, and the
-- bundling of their code. In n8n/src/preferences.js a section's title that is a name of
-- Object.prototype or an array index, which JavaScript treats otherwise. The Go service in internal/
-- and cmd/, the evaluations, the schemas of Postgres, templates, scripts and tests: each is a program
-- of its own.
pub mod Base
pub mod Text
pub mod Platform
pub mod Xml
pub mod Atom
pub mod BasicAuth
pub mod Worker
pub mod Html
pub mod Nodes
pub mod Ingest
pub mod Preferences
pub mod Enrichment
pub mod Digests
pub mod Tests
