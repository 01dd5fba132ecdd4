-- ===== src/Lib.antt =====
-- SirrMesh is a composable mail server: SMTP and IMAP endpoints hand messages to a pipeline that
-- runs checks and modifiers, applies DMARC and routes each recipient to delivery targets; one of
-- the targets is a queue on disk that retries deliveries and reports failures. This library models
-- the decisions and the state of these parts, which the goroutines and sockets around them feed.
--
-- The parts, and the code they are about (paths from the repository's root):
-- - Base: what the parts share. A Go string is the list of its code points (Base/Runes), a Go map
--   is an association list whose order stands for the order of a `range` (Base/Maps), and a pair
--   of a value and an error is a Result (Base/Results).
-- - Address: framework/address and framework/dns/norm.go. Address/Syntax has `Split`, `QuoteMbox`,
--   `UnquoteMbox`, `ValidMailboxName`; Address/Norm has what calls the Unicode packages (`Equal`,
--   `ForLookup`, `CleanDomain`, `PRECISFold`, `ToASCII`, `ToUnicode`, `SelectIDNA`): PRECIS, NFC and
--   IDNA are the record `Packages`, a parameter.
-- - Exterrors: framework/exterrors. A chain of Go errors is a data type with a constructor for each
--   error type that the package and its callers wrap; `Fields`, `IsTemporary`, `SMTPCode` walk it.
-- - Queue: internal/target/queue. Queue/Wheel is the time wheel (`Add`, and one timer of `tick`),
--   Queue/Deliver one delivery attempt (`deliver`) against any target, Queue/Retry what follows it
--   (`tryDelivery`, `toSMTPErr`): who is tried again, when, and who is reported as failed. Queue/Disk
--   is the directory with a message's files (`storeNewMessage`, `updateMetadataOnDisk`,
--   `removeFromDisk`, `openMessage`), where any call may fail, Queue/Load the start of the queue
--   from that directory (`readDiskQueue`).
-- - Dmarc: internal/dmarc. `isAligned`, `EvaluateAlignment`, `FetchRecord`, `ExtractFromDomain` and
--   the verifier's `Apply`; the public suffix list, DNS and the parsers are parameters.
-- - Limits: internal/limits. Semaphores and token buckets as states, with a take that would
--   block as a failure, `MultiLimit` over several of them, and the `Group` of four scopes.
-- - Checks: internal/msgpipeline/check_runner.go and the check actions of
--   framework/config/module/check_action.go. Checks/Action changes a result as configured,
--   Checks/Reject parses the directive, Checks/Runner merges the results of one round
--   (`runAndMergeResults`), Checks/States says which calls each check gets (`checkStates`,
--   `checkConnSender`, `checkRcpt`, `checkBody`), Checks/Results applies the results and the DMARC
--   policy to the message (`applyResults`).
-- - Tables: internal/table/chain.go and internal/authz/lookup.go. Tables/Chain is a chain of
--   tables, given as functions, with required and optional steps; Tables/Authz
--   decides by a table and `Split` whether a user may use an address.
-- - Modify: internal/modify/group.go (Modify/Group) and replace_addr.go (Modify/Replace).
-- - Pipeline: internal/msgpipeline/msgpipeline.go. Pipeline/Config has the blocks of the configuration
--   and the state of a delivery, Pipeline/Route `srcBlockForAddr` and `rcptBlockForAddr`,
--   Pipeline/Start `start`, Pipeline/Recipients `AddRcpt`, Pipeline/Body `Body`, `BodyNonAtomic`,
--   `Commit` and `Abort`. A command changes a state and may fail (Pipeline/Steps); checks, blocks and
--   targets are numbers, and a record says what stands behind them.
-- - Endpoint: internal/endpoint/smtp/session.go. Endpoint/Session is the state of a session and how it
--   lets go of a delivery, Endpoint/Session/Commands `Mail`, `Rcpt`, `Data` and `LMTPData`, with what
--   is called answering as it likes; Endpoint/Reply is `wrapErr`.
-- - Config: framework/config. Config/Node is a directive, Config/Process registers entries and matches a
--   block against them (`Custom`, `ProcessWith`), Config/Mappers, Config/Number and Config/Size read the
--   arguments.
-- - Remote: internal/target/remote. Remote/Dane is `verifyDANE`, Remote/Discovery
--   `discoverTLSA`, Remote/Policy what the policies of security.go answer, Remote/Connect the
--   fallbacks of `connect`, `attemptMX` and the check for REQUIRETLS, Remote/Mx the choice of an MX
--   (`newConn`). Remote/Pool is the pool of idle connections of internal/smtpconn/pool, Remote/Client
--   the commands of internal/smtpconn. Remote/Start, Remote/Delivery and Remote/Sending are remote.go,
--   and Remote/Runs is a whole delivery over the limits, the pool and the connections.
--
-- How they interact: the queue sorts its recipients by `IsTemporaryOrUnspec` and stores the reply
-- that `toSMTPErr` makes of the fields of the error chain, so Queue/Retry uses Exterrors; an
-- attempt of Queue/Deliver yields the map of errors that Queue/Retry sorts; Dmarc takes addresses
-- apart with `Split` of Address; the pipeline runs Checks and Modify around its routes, which look
-- addresses up by `ForLookup`; a session of Endpoint starts and ends a delivery of the pipeline, which
-- it knows by its answers only; a delivery of Remote takes slots of Limits, connections of its pool
-- and, for new ones, what `attemptMX` accepts; Checks hands the results of its checks to Dmarc and
-- turns its policy into an error of Exterrors or a quarantine.
--
-- Bounds: `math.Pow(1.25, n-1)` is modelled exactly, which a float64 holds for the numbers of tries
-- that the default configuration allows (20); the delay is an int64, kept modulo 2 ^ 64. There is
-- no fuel: every loop is structural over its input.
--
-- Not modelled: sockets, files other than the queue's, TLS, the database, logging, the modules that
-- call other programs, and the goroutines themselves, whose answers are parameters of the
-- definitions that ask; the reading of configuration files (the tree of
-- directives is given) and the IMAP endpoint.
pub mod Base
pub mod Address
pub mod Exterrors
pub mod Queue
pub mod Dmarc
pub mod Limits
pub mod Checks
pub mod Tables
pub mod Modify
pub mod Pipeline
pub mod Endpoint
pub mod Remote
pub mod Config
