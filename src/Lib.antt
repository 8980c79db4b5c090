-- ===== src/Lib.antt =====
-- The backend of OOTT, which watches a home network and tells its owner what changes: a model of
-- its core, and what holds of it.
--
-- The program. Five scanners (backend/src/scanners) listen to the network. Each turns what it sees
-- into a device (scanners/common/enrichment.rs) and hands it to the pipeline
-- (scanners/common/pipeline.rs), which reconciles it with the devices table (db/devices.rs), lets
-- events.rs record the events of the sighting in the events table (db/device_events.rs), once for
-- each window of deduplication, and hands the changes to notifications.rs. That stores one
-- notification for each kind of change (db/notifications.rs) and puts it into a bounded queue
-- (notifications/delivery.rs), from which it is sent, to the registered push tokens
-- (db/push_tokens.rs) through a relay (notifications/push.rs) or otherwise. A REST API
-- (backend/src/web_server) reads and changes the same tables, and a daily sweep (retention.rs)
-- deletes old records.
--
-- The files.
--   Prelude              numbers, lists, tests; Int for i64, Text and Utf8 for Rust's strings
--   Model                backend/src/model: devices, events, notifications, push tokens;
--                        a proof in Texts
--   Settings             backend/src/settings.rs: its sections, validate, and in Tables and File
--                        what is made of a configuration file; a proof in File/Defaults
--   Utils/Network        backend/src/utils/network.rs: MAC texts, interfaces, /proc/net/arp;
--                        Utils/Probing: resolve_mac_address and its probe
--   Db/State             backend/src/db.rs: the tables and the calls of the database
--   Db/Sql               what the SQL statements do to lists of rows
--   Db/Chronology        what is relied on of chrono's texts of times
--   Db/Devices           backend/src/db/devices.rs: Updates (read, insert, seen, update, register,
--                        unregister, delete) and Listing (list_devices, count_devices,
--                        get_summary); proofs in Keys, Laws, Reading, Filtering,
--                        Wanted, Ordering, SortKeys and Pages
--   Db/Sorting           what ORDER BY does to a list of rows
--   Db/DeviceEvents, Db/Notifications, Db/PushTokens
--                        the other modules of backend/src/db; proofs in Db/Paging,
--                        Db/PushTokens/Pruning and Db/PushTokens/Uniqueness
--   Db/Rows              the rows as SQLite holds them, their columns (Columns), and how the
--                        statements write and read them; proofs in Reading and Typing
--   Events               backend/src/events.rs and events/detection.rs; proofs in Changes,
--                        Deduplication, Duplicates and Tables
--   Notify               backend/src/notifications.rs with render.rs (Render), delivery.rs
--                        (Delivery, Relay, and the loop in Delivering) and push.rs (Relay); proofs
--                        in Grouping, Volume, Headlines, Render/Privacy, Relay/Pushing,
--                        Relay/Queue, and Delivering/Devices, Delivering/Log
--   Scanners             backend/src/scanners: Pipeline, Enrichment, the parsers Dhcp, Snmp, Ssdp
--                        and Mdns, ActiveStatus and PassiveStatus, the loops of the passive
--                        scanners (Listening), their sockets on a Unix system (Sockets), what
--                        the polling loops share (Polling), the ARP scanner (Arp) and the polls
--                        of SNMP (Snmp/Finding), and in
--                        Enrichment/Loading the databases of backend/src/data; proofs in
--                        Enrichment/Loading/Vendors, Pipeline/Registration, Pipeline/Merging,
--                        Pipeline/Repeating, Pipeline/Silence, Pipeline/Announcing with Firsts,
--                        Sighted and Once, Dhcp/Walk, Dhcp/Parsing,
--                        Snmp/Choice with Single, Ssdp/Framing, ActiveStatus/Consistency,
--                        PassiveStatus/Counting, Polling/Recruiting, Polling/Rounds,
--                        Polling/Showing, Polling/Scans, Listening/Rounds, Arp/Rounds, and
--                        Addresses, Keeping and Rounds in Snmp/Finding
--   Web                  backend/src/web_server: Auth, Query, the handlers Devices, Notifications
--                        and PushTokens, the lists with their query parameters (Requests), and
--                        ScannerStatus; proofs in Access, Query/Numbers, Requests/Answers,
--                        Devices/Registration and Notifications/Marking
--   Retention            backend/src/retention.rs; proofs in Sweeping and Rounds
--   System               backend/src/main.rs: the tasks side by side, round by round, with a proof
--                        in Watch; Api: the routes of backend/src/web_server.rs and the requests
--                        between the rounds, with proofs in Api/Guards, Api/Handlers,
--                        Api/Invariants and Api/Stale; Startup: init_db and close of
--                        backend/src/db.rs and main around the tasks, with a proof in Outcomes;
--                        Shutdown: backend/src/shutdown.rs
--   Tests                a small network on which the theorems are applied
--
-- How the state is modelled. A World holds the tables, the queue, and how often the clock and the
-- database were asked; every operation takes and returns it. An Env holds what the program does not
-- decide: the settings, the readings of the clock, and which calls of the database fail. A theorem
-- with no hypothesis on faults holds for all of them. Tables are lists of rows in the order of
-- insertion. Statements are read by SQLite's documented meaning: MAC addresses and the columns with
-- the NOCASE collation compare without regard to the case of ASCII letters, a statement that fails
-- changes nothing, a transaction that is not committed is rolled back, a new rowid is one above the
-- largest, and ties of ORDER BY keep the order of insertion. Calls of concurrent tasks are not
-- interleaved inside an operation.
--
-- Loops. A loop of a scanner takes a list of what its rounds meet: datagrams and errors of the
-- socket, or answers to a probe, and the shutdown; at the end of the list it still waits. The loop
-- of delivery is given by what can happen to it and to its queue, in any order. System puts the
-- rounds of all tasks into one sequence, each round whole. A panic of the source is a result of its
-- own; one in a round of a scanner ends the program, which System/Startup takes up, while the rounds
-- of System go on in any order behind it.
--
-- Numbers and texts. Times and durations are natural numbers of nanoseconds since the epoch, where a
-- subtraction stops; the program only compares the difference with times that are later. Strings
-- are their UTF-8 bytes. Sums of times have no bound, where chrono's would panic after the year
-- 262142. An id that the database has not yet given, -1 in the source, is `none`. LIMIT and OFFSET
-- are integers: a negative LIMIT is none, and a negative OFFSET 0. A slice of a string by bytes is
-- taken where its ends are boundaries of characters, as in the MAC addresses and the tokens that the
-- program slices.
--
-- Fuel. The walk over the options of a DHCP packet has one round for each byte of the packet and one
-- more, which is enough since every round but the last consumes a byte; see Scanners/Dhcp/Parsing.
-- The decimal text of a number has the number itself as its fuel, which is more than its digits.
--
-- Parameters, for code that is not part of the repository: chrono's texts and durations, the text
-- of a duration and the reading of one, Unicode case mapping, the relay's answer, simple_dns's
-- packets, pnet's interfaces and received packets, csnmp's rows and object identifiers, and what
-- serde_json reads of the files of vendors.
--
-- Not modelled: the sending of packets and what a socket does, the lengths of pauses and timeouts,
-- the call of Pushover, the join of the tasks, what a migration does, routing, static files and the
-- OpenAPI document of the web server, JSON, and log lines. Their work is input and output, or
-- belongs to libraries. The frontend and the push relay are other programs.
pub mod Prelude
pub mod Model
pub mod Settings
pub mod Utils
pub mod Db
pub mod Events
pub mod Notify
pub mod Scanners
pub mod Web
pub mod Retention
pub mod System
pub mod Tests
