-- ===== src/Lib.antt =====
-- Verification of the Atome Go SDK (directory atomefin/ of the repository).
--
-- The SDK signs JSON requests to a payment gateway, sends them with retries, and verifies and handles
-- the gateway's callbacks. The files follow its packages:
--
--   Base         numbers, lists, byte strings, int64 patterns and maps that all parts share
--   Text, Url    what the SDK uses of Go's strings, sort and net/url packages
--   Sign         atomefin/sign/canonical.go: rfc3986Escape, CanonicalQuery, CanonicalQueryFirstValue,
--                EncodeWireQueryRFC3986; Keys: atomefin/sign/pem.go and the constructors of the RSA2
--                signer and verifier
--   Errors       atomefin/errors.go: the error types, Temporary, IsRetryableTransport, decodeAPIError
--   Io           bounded reading of a body, as doer.go and callback/handler.go do it
--   Transport    atomefin/transport/retry.go: RetryPolicy, Validate and Backoff;
--                UserAgent: useragent.go
--   Client       atomefin/doer.go: Headers (populateHeaders, isReservedHeader, the options of a call),
--                Exchange (dispatchAttempt, readAndClose), Dispatch (signAndDispatch, DoSigned,
--                DoSignedGET), Encrypted (DoEncryptedSigned); Config: the options of atomefin/options.go
--                and New of atomefin/client.go
--   Service      what the service packages share, after atomefin/credit/credit.go: the check, the
--                signed call and the decoding of a method
--   Transaction  atomefin/transaction: the checks, the query, the calls, and TransactionsAll over its
--                pages
--   Refund, Repayment, Bill, Credit, VirtualAccount
--                the packages of those names under atomefin: types, checks, queries and calls
--   Payment      atomefin/payment: the types and validators of /auth, /capture, /reAuth, /voidAuth,
--                the pre-check, the plan and the queries, and pollUntilTerminal
--   Encrypt      atomefin/encrypt: padding, body, key, header and envelope
--   Callback     atomefin/callback: the verifier and the handler, with OVOHMACCanonical of
--                atomefin/sign/hmac.go
--   Spec         internal/spec: ValidateBody of dispatch.go on decoded JSON
--   Mock         atomefin/mock: Cache (idempotencyCache of server_options.go), Server (serveHTTP of
--                server_dispatch.go on the state of transport.go)
--   Tests        concrete runs
--
-- How they interact: Client signs what Sign renders, builds the headers once and repeats one request
-- under the policy of Transport; every failure is a value of Errors. Payment refuses a request before
-- Client sees it, and so does each service with its own checks; a service decodes what Client
-- returns. The encrypted calls of Credit go through Encrypt, and what Encrypt sealed is what is signed.
-- Callback calls the partner's function only after verification. The test server checks a request
-- with Spec, answers a repeated one from its cache, and asks its scenario otherwise.
--
-- State and effects. A call of the client takes a `World`: the signer, the reply to each attempt, the
-- errors of the context and of each sleep. It returns its outcome and the list of events, requests
-- and observer calls, in order. An error of Go's libraries is a `Cause`, which keeps what the SDK asks
-- of it. A Go string is the list of its bytes. An int64 is its bit pattern below 2 ^ 64, and additions
-- and shifts wrap as in Go. A map with a loop over it is the list of its entries in the order of the
-- visit. A nil pointer is `none`.
--
-- Bounds. The retry loop recurs on the rounds that its condition still allows, so it needs no fuel.
-- The sampling of an AES key recurs on the list of reads of crypto/rand, and answers `pending` where
-- the list is too short; the polling loop recurs on the list of rounds in the same way. TransactionsAll
-- recurs on the number of pages that it may ask for, and answers `pending` where it is too small.
-- Decimal numerals have twenty digits of fuel, which is enough for an int64.
--
-- State. The replay cache of the test server is a map to addresses, the list of elements in the order
-- of their last use, and the next address; the server is its recorded requests, its counts and its
-- cache. A request is a step on that state; the mutex makes the steps of the cache atomic, and each is
-- one function here.
--
-- Parameters. crypto/aes, crypto/rsa, crypto/rand, encoding/base64, encoding/json, encoding/pem,
-- crypto/x509, net/url's Parse, what package runtime says, the signer, the
-- scenarios of the test server, the generator of request ids and the floating-point jitter are
-- arguments, with what is relied on as named laws.
--
-- Not modelled: logging and clocks (no result depends on them), JSON encoding, nil receivers, the
-- signing and verifying methods of package sign, the scenarios and typed callbacks of the
-- test server, the walker of the specification (a traversal of the tree of a YAML library), the
-- polling wrappers of the services, and the examples and harnesses.
pub mod Base
pub mod Bill
pub mod Callback
pub mod Client
pub mod Credit
pub mod Encrypt
pub mod Errors
pub mod Io
pub mod Mock
pub mod Payment
pub mod Refund
pub mod Repayment
pub mod Service
pub mod Sign
pub mod Spec
pub mod Tests
pub mod Text
pub mod Transaction
pub mod Transport
pub mod Url
pub mod VirtualAccount
