-- ===== src/Lib.antt =====
-- Verification of packages-go, a repository of independent Go modules. Each module of the program that
-- is modelled has a module of its own here; they share only helpers: Prelude, Encoding (base64 and
-- hex), Sorting and Slashes for what they use of the standard library, and Errors, which three of the
-- Go modules repeat.
--
--   github/    Github. client.go, types.go and errors.go mint GitHub App installation tokens. The
--              client's state under its mutex is the record Github.Client.Client; `mint` is the three
--              critical sections `reserve`, `record_rate_limit` and `settle` with one HTTP exchange
--              between them (Github.Client, Fresh and Mint). Schedule has concurrent calls as a step
--              relation on the state and the calls in flight; Scope, Cache and Dedupe hold the proofs.
--              Permissions is the cache label of a permission map, Codes the error codes.
--   pg/        Pg. migration.go and `validateMigrations` are Pg.Migration, export.go and
--              `validateExportReceipt` are Pg.Export, Runner.Apply of runner.go is Pg.Apply, and tx.go is
--              Pg.Transaction. The database is any record Pool of the calls the code makes; its laws,
--              those of transactions, are the record Transactional of Pg.Database.
--   s3/        S3. S3.Wire has requests, replies and the log of what was sent; S3.Key is `validKey` and
--              `validBucket`, S3.Config NewClient, S3.Listing List, S3.Client the other single
--              requests of s3.go, S3.Multipart `createMultipartUpload` and the upload of one part with its
--              retries, S3.Multipart.Upload the loop over the parts and `putMultipart`, S3.Stream
--              `PutStream`, S3.Url the URL of an object and S3.Sign the SigV4 signature. The proofs
--              are below S3.Multipart, S3.Listing, S3.Stream, S3.Url and S3.Sign.
--   email/     Email. The errors of delivery.go are Email.MailError, `retryAfter` is in Email.Delivery. Of
--              client.go, `verifyAllRecipientsAccepted` is Email.Recipients, `buildRawMessage` is
--              Email.Message, and New, Send and SendWithMessageID are Email.Client, from the checks to
--              the reading of the answer.
--   fulcrumprojects/
--              Projects. errors.go and `apiError` are Projects.Codes; `do` and the calls of
--              client.go are Projects.Client, with the shapes of envelope.go that they read, and Applied
--              below it; Retry is Projects.Retry. Projects.Builders is mutations.go, and
--              Projects.Formats the IDs and patterns that it uses.
--   lifecycle/ Lifecycle. Drain of drain.go is Lifecycle.Drain: an event is one step of one target's
--              goroutine, and a run is any interleaving of events. signal.go is Lifecycle.Signal, on what
--              the channel delivers.
--   auth/      Auth. Verify and verifyES256 of verify.go are Auth.Verify, validateClaims is Auth.Claims,
--              the pattern of user subjects Auth.Subject, and jwks.go, with the cache of keys that
--              signingKey keeps under its mutex, Auth.Keys. The codes of errors.go are Auth.Codes.
--              Auth.Routes has the checks of paths and redirects of config.go, cookies.go and http.go.
--   foundryoperator/
--              Operator. appendJSONString and appendCanonical are Operator.Canonical, over the JSON
--              values that a decoder yields; nonces, the proof and Sign are Operator.Proof. The readers
--              of Canonical.Strings and Canonical.Flat stand for a verifier.
--   packaging/ Packaging, on manifest.go. Packaging.Files is collectFiles on the visits of a walk and
--              equalFiles, Packaging.Paths safeRelativePath, Packaging.Manifest the manifest, the
--              directory and the writing of its two files, Packaging.Seal Seal, and Packaging.Verify
--              VerifyAny.
--
-- Numbers are the native naturals; what the code keeps in int64 and can be negative is ℤ of
-- Prelude.Int. Strings and byte slices are lists of byte codes. Times are nanoseconds since Go's zero
-- time, or since the Unix epoch where a file says so. Every reading of the clock, of randomness and of
-- the network is an argument or a function passed in, so that the theorems hold for all of them. An error is kept as far as the code tells errors
-- apart: by its code in Errors (Github, Projects and Auth), by the return it comes from in Pg, by its
-- constructor in Email, and by its text and its net.Error in S3, where isTransientMultipartError reads
-- them.
--
-- Fuel: `digits_onto` in Prelude.Decimal takes one more than the number whose digits it writes, and
-- `upload_loop` in S3.Multipart.Upload one more than the bytes left in the stream, of which every round
-- but the last takes at least one; that this is enough is part of the theorem on upload_parts. All other
-- loops recurse on their list, or on the attempts that are left.
--
-- The bound of int64 is written out where the code can meet it: in `parse_uint` and `parse_int` and in
-- the number of parts of an upload, where the sum wraps around and the allocation panics.
--
-- Parameters stand for what is not in the repository: the database, the HTTP endpoints, the reading of
-- XML and JSON texts and of URLs, the SHA-256 of bytes, RSA, ECDSA and Ed25519
-- signatures, the test of a point of P-256, and HMAC. Not modelled are the JWT of a GitHub App, reading secrets from files, the texts of
-- errors outside S3, New of fulcrumprojects, New, the requests to the issuer, the cookies and the HTTP
-- handlers of auth, and the modules sidecar, synthetictraffic and testkit, which share no code with the
-- modules above.
pub mod Prelude
pub mod Encoding
pub mod Sorting
pub mod Slashes
pub mod Errors
pub mod Github
pub mod Pg
pub mod S3
pub mod Email
pub mod Projects
pub mod Lifecycle
pub mod Auth
pub mod Packaging
pub mod Operator
