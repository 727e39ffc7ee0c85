-- ===== src/Lib.antt =====
-- tvproxy, an IPTV proxy: channels are made of upstream streams, viewers and recordings share one
-- session of a channel, and recordings are scheduled ahead. This library models the parts of it that
-- decide: who may do what, what is kept, which session a viewer gets and which copy of a stream.
--
-- The parts, and where each is modelled:
--   * pkg/store: every store keeps its rows in memory and writes them whole to a JSON file.
--     Store/Table is the table and its file, with a failed write leaving the rows changed;
--     Store/Recordings (scheduled_recording.go), Store/Channels (channel.go) and Store/Users
--     (user.go) have one function for each method, named after it.
--   * pkg/service/scheduler.go: Scheduler has Schedule, Delete, List, Get and Tick, over the stores of
--     recordings and channels. VODService is the record Recorder of the three operations that the
--     scheduler calls. Scheduler/Steps, Conflicts, Ticks and Access hold the proofs.
--   * pkg/service/auth.go: Auth, over the store of users. bcrypt and JWT are the record Crypto, whose
--     laws are what their documentation states: a hash matches the password it was made of and is not
--     empty, and a token that was signed with a secret is parsed with it until it expires.
--   * pkg/session/session.go and manager.go: Session is one pipeline with its consumers,
--     Session/Manager the map of sessions. Session/Validity and Session/Sharing are about joining,
--     Session/Running about the sessions that run meanwhile, Session/Leaving about consumers that
--     leave, Session/Cleanup about the end of a session, Session/Past, Session/Calls and
--     Session/Replacement about a session that is followed by another.
--   * pkg/service/strategy.go: Strategy decides between copying and transcoding.
--   * pkg/session/wgpool.go: Pool is the pool of proxies, Pool/Failover how a request falls over.
--   * pkg/lib/av/extradata: Extradata (extradata.go, h264.go) and Extradata/Bits (bitreader.go).
--   * pkg/lib/av/selector: Selector chooses an audio track.
--   * pkg/service/client.go: Clients detects the client of a request and keeps the profile of each,
--     over Store/Clients (client.go) and Store/Profiles (profile.go). Clients/Detection,
--     Clients/References and Clients/Creation hold the proofs.
--   * pkg/worker/hdhr_discover.go: Discover parses discovery packets and builds the replies.
--   * pkg/service/activity.go: Activity, the viewers and the users seen lately; Activity/Counting is
--     about the viewers of an account.
--   * pkg/session/watcher.go: Watcher, what each change of a file of a session's directory does, over
--     Watcher/Segments, the numbered segments. Watcher/Numbers and Watcher/Turns hold the proofs.
--   * pkg/store/epg.go: Guide, the programme guide with its maps by source, channel and data.
--     Guide/Views has its queries, Guide/Now is about the programme that is on,
--     Guide/Links about the index of channels.
--   * pkg/store/stream.go: Streams/Plain, the streams in one map. pkg/store/stream_indexed.go:
--     Streams/Entries, Streams/Indexed and Streams/Dropping, an index over a run of JSON records with
--     their offsets. Streams/Steps names the calls of both, Streams/Refinement says when one store
--     holds the streams of the other, Streams/Simulation, Queries, Restart and Identifiers hold the
--     proofs. The two calls that change a whole account and Load are modelled, and are no call of
--     Steps: the stores stamp the streams of the account differently, and only one counts a load.
-- Base holds what they share: Boolean tests, lists, results, rows under a key, maps, sorting, texts
-- and their order, integers.
--
-- How the state is modelled. An operation takes the state and gives the new one with its result. The
-- lock of a store or of the manager makes its operation one step. Where a goroutine runs on its own,
-- as stopAndCleanup does, it is a task in the state that may take its turn at any later point.
-- RemoveConsumer and stopAndCleanup take several locks: each has a function for either part of it, so
-- that other calls may come between, and one for both in a row. The probe cache's or the output
-- directory's path of a session is an input of the join.
-- Pointers that are compared are numbers that are never used again. What the environment gives is an
-- argument: the readings of the clock, the outcome of each write, new identifiers. In the scheduler
-- they are numbered by the events of the run, so no two of them need agree.
--
-- Numbers. Times and durations are nanoseconds, positions in a stream microseconds. Go's int is a
-- natural number where the source never makes it negative, and else an integer of Base/Integers; the
-- 32 bits of the bit reader and the bytes and 16-bit lengths of the codec headers wrap as they do in
-- the source. sort.Slice is a stable insertion sort; maps are association lists. strings.ToLower is
-- written out for ASCII. A slice or an index out of range is an outcome of its own in Discover and in
-- Watcher/Segments.
--
-- Fuel. The loops of SplitNALUnits, of parsePacket and of the Load of the indexed store take the
-- length of their data as fuel: their position grows at each turn. In the first two, fuel that runs
-- out is an outcome of its own. All other loops are recursion on a list or a number.
--
-- Code outside the repository. JSON is a pair of functions of which only this is supposed, that
-- unmarshalling undoes marshalling and that a record is never empty; CRC-32 is any function with
-- values of 32 bits; strconv.Atoi is any function.
--
-- Not modelled: the media pipelines and the wrappers of FFmpeg, HTTP handlers, the clients of remote
-- services, the Jellyfin emulation, generated code and the front end; the log; json and file names.
-- H.265 headers, HLS, the parsers and the Bolt store of streams are left out as well.
pub mod Base
pub mod Activity
pub mod Store
pub mod Scheduler
pub mod Auth
pub mod Session
pub mod Strategy
pub mod Pool
pub mod Extradata
pub mod Selector
pub mod Discover
pub mod Clients
pub mod Guide
pub mod Streams
pub mod Watcher
