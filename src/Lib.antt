-- ===== src/Lib.antt =====
-- Simple storage service, an object store that speaks the S3 protocol: what its domain services do,
-- as definitions that run, and what makes them correct.
--
-- The program. Two servers, apps/s3 for the S3 protocol and apps/api for the console, sit on the
-- services of libs/domains. An S3 request is authorised (s3.authorization.service.ts) by the policy
-- of its bucket (policies.service.ts), the canned ACL, ownership and grants (buckets.service.ts).
-- Its body may be framed in signed chunks (s3.chunked.stream.ts). The payload goes to the blob store
-- (storage.service.ts), which encrypts it (storage.cipher.ts), and the versions of a key are rows of
-- the database (objects.service.ts), under quotas (usage.service.ts). A collector (gc.service.ts)
-- deletes the blobs that no row refers to. Requests of S3 clients are signed with the secrets of
-- access keys (access-keys.service.ts), those of the console carry tokens (auth.service.ts), and a
-- counter in Valkey limits both (rate-limit.service.ts). The database is Postgres; its tables are in
-- libs/database.
--
-- The files, with the code each is about:
--   Prelude            shared tests on numbers, lists, text, results and tables
--   Database           libs/database/src/core/schema.ts, libs/database/src/core/types.ts
--   Wildcard           the wildcards of policies and of CORS rules, with their regular expressions
--   Policy             libs/domains/src/policies: Evaluate, Conditions and Address decide, Store keeps
--   Buckets            libs/domains/src/buckets: all operations; Names, Cors
--   Authorization      libs/domains/src/s3/s3.authorization.service.ts
--   Storage            libs/domains/src/storage: Cipher (keys, their wrapping, ranges), Blobs (files)
--   Objects            libs/domains/src/objects: Versions (the tables), Keys, Put (with the blob
--                      store and the quota check), Multipart (the parts that a completion names)
--                      and Multipart/Upload (the life of an upload), Multipart/Listing
--   Gc                 libs/domains/src/gc, and the listing of blobs
--   Usage              libs/domains/src/usage
--   ChunkedStream      libs/domains/src/s3/s3.chunked.stream.ts
--   Users              libs/domains/src/users, revokeSessions of libs/domains/src/auth
--   Signature          libs/domains/src/s3/s3.signature.service.ts: the canonical request; Parse,
--                      Verify, Presign
--   Sessions           libs/domains/src/auth: sign-in, refresh tokens, passwords
--   AccessKeys         libs/domains/src/access-keys, libs/domains/src/cryptographic
--   RateLimit          libs/domains/src/rate-limit
--   Pagination         libs/shared/src/api/pagination.ts
--   Request            libs/domains/src/s3/s3.request.service.ts: ranges; Conditions, Target (the
--                      path, the copy source, sub-resources), Headers
--   Tests              runs at concrete inputs
-- An operation keeps the name of its method, in snake case: commitVersion is commit_version. The
-- child modules of a file hold its theorems, named for what they are about.
--
-- State. A table is the list of its rows; a query is a search, a filter or an update of that list,
-- `order by createdAt desc limit 1` takes the first row of the greatest time, and an insertion is at
-- the head. What the database or the random generator draws (a guid, a version id, a key, the time)
-- is an argument, and a theorem that needs it fresh says so. A guid, a blob path and a time are
-- numbers. Errors are values of a type per service. Each operation is one step, but for the refresh
-- of a token, whose reads and writes are two; what two requests do to each other between the queries
-- of one other operation is not modelled. `Sessions/Requests` and `AccessKeys/Lifecycle` run lists
-- of requests.
--
-- Text is the list of its UTF-16 code units. `toLowerCase` and `toUpperCase` are modelled on the
-- letters a to z, and white space on what an HTTP header can hold.
--
-- Code that is not in this repository is an argument. `Crypto` is Node's crypto as the blob store
-- uses it: AES in counter mode, AES-GCM and base64, with their documented laws. The digests of the
-- payloads and chunks are functions. `Gcm`, `Scrypt` and `Jwt` are the encryption of secrets,
-- the derivation of password hashes and the web tokens; `Platform` is what signatures need of
-- encodings, dates, numbers and digests, and `IsUri` what is documented of encodings and
-- numbers; `Valkey` is INCR and EXPIRE with their documented effect; `decodeURIComponent` and the
-- reading of dates are functions. `Numbers` is the conversion of text to numbers and dates in the policy conditions, with
-- the one law that the empty text is zero.
--
-- Bounds and fuel. Addresses are 32-bit patterns with `% 2 ^ 32` at each shift, the cipher counter
-- is 16 bytes that wrap. `consume` of ChunkedStream runs on fuel, two rounds for each pending byte
-- and two more, which is shown to be enough. `follow` of Multipart/Listing runs as often as there
-- are parts and once more, which is shown to be enough too. Sizes are exact; the source's are below
-- 2 ^ 53.
--
-- A refusal of the file system is modelled where the code catches it: a source that breaks off, a
-- deletion that fails in the collector, a command of Valkey that fails.
--
-- Not modelled: the listings of keys, versions and uploads with delimiters, copies and deletions in
-- bulk, the payload stream and the policy context of a request, XML, the audit log, the servers and
-- the console.
pub mod Prelude
pub mod Wildcard
pub mod Policy
pub mod Storage
pub mod Database
pub mod Buckets
pub mod Authorization
pub mod Objects
pub mod Usage
pub mod ChunkedStream
pub mod Request
pub mod Signature
pub mod Users
pub mod Gc
pub mod Sessions
pub mod AccessKeys
pub mod RateLimit
pub mod Pagination
pub mod Tests
