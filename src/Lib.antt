-- ===== src/Lib.antt =====
-- ctscan reads the certificates of TLS services. The command line (internal/cli/cli.go) collects raw
-- targets, internal/input/input.go expands them to endpoints, the scanner (pkg/ctscan/scanner.go and
-- audit.go) makes one TLS handshake with each and grades what it finds, and internal/output/output.go
-- prints the results. Names of the certificates that lie in an authorized scope may be scanned in
-- further waves. internal/snapshot/diff.go compares two recorded runs, and
-- internal/transparency/transparency.go asks the logs of certificates for names.
--
-- Which file models what:
--   Types                pkg/ctscan/types.go: the records; a nil pointer is none
--   Input.Ports          ParsePorts
--   Input.Names          NormalizeDNSName and InScope
--   Input.Ranges         expandCIDR and incrementIP
--   Input.Targets        ParseTarget, splitTarget and normalizeHost, over a Net: ParseIP, ParseCIDR,
--                        SplitHostPort and url.Parse
--   Scanner.Findings     certificateFindings (scanner.go), auditFindings and complianceFor (audit.go)
--   Scanner.Errors       classifyError and isRetryable
--   Scanner.Retry        Scan, baseResult and finishResult; the answers of waitRate, of the timer, of
--                        the context and of scanOnce are a script, an Attempt for each round
--   Scanner.StartTls     negotiateStartTLS and negotiateMySQL; a Talk is the answers left to read and
--                        what was sent
--   Scanner.Setup        NewScanner, makeDialer and dialHTTPProxy, over a Proxy: net/url and SOCKS
--   Scanner.Certificates certificateInfo and validateCertificate, over Crypto: crypto/x509 and hashing
--   Scanner.Handshake    scanOnce, scanOnceWithTLS and tlsVersionName; a network answers a Hello
--   Scanner.Audit        ScanAudit on the result of Scan, the answers to the probes of versions, and the
--                        ciphers that arrive; Probing is the pool of cipher probes they arrive from
--   Workers              the pools of ScanStream and runWave as steps of a System; Conserved, Results and
--                        Progress are about the runs of it, and Ordered is the ordered mode of runWave
--   Transparency         New of internal/transparency/transparency.go; Names, Links and Requests are
--                        normalizedNames, parseNextLink and doRequest, Search the two Search methods,
--                        over a Web: net/url, net/http, time.Parse and JSON
--   Snapshot.Reading     Read and Identity
--   Snapshot.Changes     Diff and its helpers
--   Output.Names         CertificateNames
--   Output.Display       formatText and netJoinDisplay
--   Output.Writer        New and Write; a Writer is its configuration, its lines and the names printed
--   Input.Resolving      ReadLines and Resolve, over a Resolver
--   Cli.Endpoints        prepareTargets over ParseTarget and Resolve, as the program composes them
--   Cli.Options          the checks of runScan, parseDuration, parseTLSVersion, loadRoots and
--                        collectRawTargets, over an Environment: files and the public suffixes
--   Cli.Ct               runCT over its provider's search
--   Cli.Diff             runDiff on two snapshots
--   Cli.Targets          prepareTargets and targetKey, over a Source: parsing and resolving
--   Cli.Pivot            the loop of runScan over waves, over Calls: runWave, prepareTargets on a name
--                        and Write; State holds the variables of the loop, and the waves scanned
--   Base                 texts, decimals, maps, sorting and equality, as the source uses them
--   Tests                the theorems at concrete inputs
--
-- How the code is read:
--   A text is the list of its bytes; lower case, upper case and white space are those of ASCII. An int
--   of Go that is not bounded by its checks is an integer; a parsed decimal is in the range of 64 bits.
--   A call that returns a value and an error is an Outcome. A map used as a set is the list of its
--   members; one that is iterated is the list of its entries in the order of the iteration.
--   Parameters: idna.Lookup.ToASCII, the network that net.ParseCIDR returns, the text of a date, dates
--   in texts, encoding and decoding JSON, the destination of the output, files, x509 and hashing, the
--   public suffixes, DNS, URLs, and what the network answers. int(d.Hours() / 24) is one, since it is
--   computed with floating point.
--
-- Loops and fuel:
--   The loop of expandCIDR takes fuel. Without large ranges 65538 rounds are enough for every network;
--   with them, a block smaller than its address space needs a round more than it has addresses, and the
--   whole IPv4 address space has no fuel that is enough, since the loop of the source does not end.
--   The loop over the pages of a log takes fuel, and there may be no fuel that is enough, since the
--   pages may name one another for ever. The steps of a pool are bounded by its targets
--   and workers.
--   The loop over waves takes fuel; a round more than the pivot depth is enough. The attempts of Scan
--   are rounds of structural recursion, one more than the number of retries. All other loops are
--   structural recursion on their lists, and the lines of a mail server's reply are at most 100.
--
-- Not modelled: sockets, TLS handshakes, x509 parsing and verification, which are parameters;
-- the declarations of flags, opening files, and the texts of help and completion.
--
-- slices.SortFunc and slices.Sort are an insertion sort. On texts every sort gives the same list; on
-- changes, which Diff compares by endpoint and kind only, the order of equal ones is that of a stable
-- sort here, and the order is no part of what is stated of the members.
mod Base
pub mod Types
pub mod Input
pub mod Scanner
pub mod Workers
pub mod Transparency
pub mod Snapshot
pub mod Output
pub mod Cli
mod Tests
