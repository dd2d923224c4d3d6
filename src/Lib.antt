-- ===== src/Lib.antt =====
-- iplayer-arr presents BBC iPlayer as a Newznab indexer and a SABnzbd download client. A search is
-- answered with release titles of the programmes that pass its filter; a grab comes back as a GUID or
-- an NZB file and becomes a row of a bbolt database; workers claim pending rows in the order of the
-- queue, resolve a stream, run ffmpeg under a watchdog, and finish the row or charge the failure to
-- one of its budgets; an adaptive throttle lowers the number of workers that may run when downloads
-- stall together. A dashboard reads and changes the same database behind an API key.
--
-- Modelled here is the program's core logic:
--   * Store: internal/store. Types is types.go; Bolt states what bbolt documents of a bucket, as the
--     interface `Bolt` that every store operation takes; Queue is sortDownloadQueue; Downloads is
--     downloads.go, with MoveDownload in Move; History is history.go. Catalogue has the other records
--     of types.go; Tables the loops that the small buckets share; Overrides, QualityCaches, FirstSeen,
--     Programmes and Settings are overrides.go, quality_cache.go, first_seen.go, programmes.go and
--     config.go with the defaults that Open (store.go) seeds; Names and Series are series.go. A
--     transaction is a function from the buckets to new ones or an error.
--   * Access: internal/auth/compare.go and the three guards that use it.
--   * Bbc: internal/bbc/playlist.go, the version of an episode that is downloaded.
--   * Download: internal/download. Throttle is throttle.go; Worker is the claim of a row by
--     processNext (worker.go); Retry is failDownload's change of the row (worker.go) with
--     addFailedSupplier (supplier.go), and Failure its writes; Quality is the quality ladder and the
--     size estimate of worker.go; Streams is pickStream (worker.go) and selectVariantByHeight
--     (ffmpeg.go); Watchdog is the watchdog's window and the diagnostic tail of ffmpeg.go; Enqueue is
--     Manager.Enqueue (manager.go) with sanitiseFilename (worker.go).
--   * Newznab: internal/newznab. Subtitles, Titles and Generate are titles.go; Parse is parse.go; Guid
--     is nzb.go; Brands is disambiguate.go with the name filter of search.go; Filter is the rest of the
--     search filter; Limits is the limit, the dates, the quality ceiling and the qualities that are
--     advertised for one programme.
--   * Sabnzbd: internal/sabnzbd/handler.go. Requests reads a grab out of a request, Slots is what the
--     queue and the history show, and Serve is ServeHTTP with every mode and CancelDownload; Refusals is
--     about the guard, and Grab about the way of a release through Sonarr and back.
--   * Api: internal/api. Routes is routes.go with the middleware and the origin check; Settings is
--     config.go and overrides.go; Handlers is the downloads and the history of downloads.go.
--   * Prelude: Go strings as lists of bytes, words, decimal numbers, the order of three-way
--     comparisons, insertion sort, signed numbers, and the lemmas that the parts share.
--   * Examples: a concrete bucket, tests, and the theorems applied to concrete values.
-- Names are those of the source in snake_case. A method that reads the clock takes the time; a mutex
-- makes a method one step. Retry uses the throttle's stall_backoff and inCooldown, Refusal reads a
-- failed row with Streams, Enqueue uses Downloads, History and Parse, Sabnzbd uses Enqueue, Guid and
-- Move, and Api uses Enqueue, Generate and the store.
--
-- Numbers are natural, with a sign where the source has one: counters, heights and times are never
-- negative. Go's int64 is written out where a product or a shift can leave its range (the index of a
-- history page, the watchdog's shift). There is no fuel: every loop is structural. A regular
-- expression is a scan for its leftmost match. ToLower, EqualFold and TrimSpace are those of ASCII in
-- Prelude; Names and Brands work on runes and take package unicode as a parameter.
--
-- Parameters are the code that is not in the repository: bbolt, package unicode, strings.EqualFold,
-- fmt.Sscanf of a number, base64, net/url, the XML decoder, the pattern of ServeMux that
-- a request matches, the times of RFC 3339, filepath.Base and filepath.Join; and of the repository the
-- fetch of an episode and parseISODuration, which computes in floating point.
--
-- Not modelled: HTTP transport, the file system and the ffmpeg process, which are I/O; what a worker
-- does with a claimed row but for its failure; the loop of search.go that emits a response, but for
-- the qualities of one programme, the search by movie and the TVDB matching; internal/bbc but for
-- playlist.go; the event hub, the directory handlers, the status and diagnostic pages, the frontend
-- and cmd. ClearHistory and PurgeStaleFirstSeen delete as they iterate, which bbolt leaves
-- undefined, and ListHistoryOutputDirs only cleans paths.
pub mod Prelude
pub mod Store
pub mod Access
pub mod Bbc
pub mod Download
pub mod Newznab
pub mod Sabnzbd
pub mod Api
pub mod Examples
