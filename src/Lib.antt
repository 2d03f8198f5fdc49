-- ===== src/Lib.antt =====
-- Verification of go-monobank-sdk, a Go client for the APIs of monobank: the shared HTTP client with
-- its options, retries and limits, exact money, statements, webhooks, logs and merchant acquiring.
--
-- Parts, and the files that model them:
--   Base         numbers, lists and text: int64 with its wrap-around, and strconv's Itoa and Atoi.
--   Currency     currency/currency.go: the table of codes, Parse, String, Decimals, MinorPerMajor.
--   Money        money/money.go: Add, Sub, Neg and Mul as they compute on int64, and ParseMajor, in
--                Money/Parse. An error is a constructor; the text of its message is left out.
--   Dedup        webhook/dedup.go, and its copy in acquiring/dedup.go: MemoryDeduper as its list
--                and its index. Its abstract view is the list of ids, the one used last in front.
--   Bank         bank/data.go and bank/statement.go: a statement entry, and DrainWindow, which pages
--                through one window over a fetcher. Its consumer is a function on a state.
--   Personal     personal/client.go: TransactionsRange, which drains windows of 31 days.
--   Retry        retry.go: the loop, the backoff and the Retry-After header.
--   Client       client.go: Do, shouldRetry and attempt, over a network that is a record of
--                functions on a state. Do runs the attempts through the loop of Retry.
--   Webhook      webhook/parse.go and the interfaces of the package; Webhook/Signature is Verify,
--                Webhook/Handler is NewHandler and the refresh of the key, Webhook/Serve is ServeHTTP. It
--                uses any Deduper that keeps the laws of the interface; Webhook/Memory shows that
--                the one of Dedup does.
--   Acquiring    acquiring/lifecycle.go, acquiring/reconcile.go and DedupKey: what a subscription's
--                state means for its access, a statement against the merchant's own records, and
--                PollInvoice over a list of what each of its turns meets.
--                Acquiring/Webhook and Acquiring/Handler are acquiring/webhook.go and
--                acquiring/handler.go: `admit` is the checks of ServeHTTP, `deliver` what follows them.
--                Acquiring/Subscriptions is the iterators over the lists of subscriptions.
--   Business     business/iter.go: ContactsAll, SearchContactsAll and StatementAll.
--   OpenBanking  openbanking/client.go, accounts.go, consents.go, payments.go and testintegration.go: what
--                the methods check and the requests that they build.
--   Log          the masks of bank/data.go, and values of log/slog. Bank/Logs is the LogValue methods of
--                bank/data.go, Bank/Accounts its types and lookups, over stores of cells.
--   RateLimit    ratelimit.go: Limiter and KeyedLimiter; the limiters stand in a heap.
--   Options      options.go, and SetBaseURL of client.go: the options as data, and New.
--   Installment  installment/money.go: amounts in kopecks, their text and its parser.
--   Tests        each theorem at a concrete input, and runs of the definitions.
--
-- Operations keep the names of their Go functions in snake_case: `drain_window` is DrainWindow,
-- `serve_http` is Handler.ServeHTTP, `parse_major` is ParseMajor. Statements and times are whole
-- seconds; durations, and the times of limiters and of acquiring's webhooks, are nanoseconds. Texts
-- are lists of bytes.
--
-- Fuel: DrainWindow and TransactionsRange loop on fuel. One round for each row of the window and one
-- more, and one round for each window of 31 days and a second, are proved enough against a server
-- that serves pages of 500 rows; so is one turn for each second of the window and two more for
-- StatementAll, and one for each contact and one more for ContactsAll. The loop of retries is
-- structural on the attempts left, that of Limiter.Wait on the turns that it meets.
--
-- Parameters: cryptography, base64, JSON, URLs, arithmetic on float64 and its printing, the clock,
-- the jitter, HTTP and the callbacks of the caller. What is used of them is stated where they are
-- declared.
--
-- Not modelled: amounts computed in float64 (FromMajor, Scale, Major, Rates.Convert), hooks and
-- loggers in a request, the methods of the other clients that build one request and decode one
-- answer, the authorizers, the parsing of public keys, the corporate, jar and mcc packages, the
-- answers of open banking and its transport, the requests of business and installment, options that
-- a caller writes, a key provider that answers with neither a key nor an error, times within a
-- second, and requests to one handler or waits on one limiter that overlap in time.
pub mod Base
pub mod Money
pub mod Currency
pub mod Dedup
pub mod Bank
pub mod OpenBanking
pub mod Personal
pub mod Retry
pub mod Client
pub mod Webhook
pub mod Acquiring
pub mod Log
pub mod Business
pub mod RateLimit
pub mod Options
pub mod Installment
pub mod Tests
