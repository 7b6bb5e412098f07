-- ===== src/Lib.antt =====
-- Razdacha: a WireGuard gateway with per-rule routing through tunnels.
--
-- The daemon keeps its state in an SQLite database (internal/store) and serves a panel over HTTP.
-- Routing rules are tried by priority; each names a tunnel, and may be limited to peers.
--
-- Store models internal/store: Store.Model has the records of model.go with their checks, Store.Db
-- the tables and the transactions of store.go as a function from the database to a result and a
-- database, Store.Tables the SQL statements with the UNIQUE indexes and foreign keys of migrate.go
-- that they can break, and Store.Rules the operations of rules.go (CreateRule is create_rule,
-- applyOrder is apply_order). An error of the driver other than a broken constraint (a full disk, a
-- lost file) is not modelled. A priority is an unbounded integer: it is the number of a row, far
-- below the width of the column. The value of newID() is an argument.
--
-- Store.Peers models peers.go (CreatePeer, UpdatePeer, PatchPeer, DeletePeerWithEffects) and of
-- reality.go the credentials of a peer (ensurePeerReality, invalidateReality, RotateReality).
-- Store.Peers.Runtime has RealityRuntime, which makes the list of the clients that are let in from a
-- snapshot and the tables; Store.Peers.Consistent says how the tables of peers and credentials agree,
-- Store.Peers.Revoked what a revocation leaves of a snapshot, and Store.Peers.Snapshot has the
-- admissions of Snapshot in snapshot.go. Whether REALITY is enabled and the identity of the server are
-- inputs of RealityRuntime. Store.Tunnels models tunnels.go; Store.Tunnels.Builtin has
-- EnsureBuiltinPool, which collapses the built-in pools of an older version into one. Store.Rows is
-- the loop that the store runs over the rules in both: one UPDATE by id for each row that it read
-- before. The texts that newID() makes, the time and json.Valid are arguments. The JSON encoding of a
-- list column is not modelled: the column is the list. The order in which a table is read is modelled
-- where it decides (rules, tunnels).
--
-- Store.Migrate models the loop of migrate.go over the steps of the schema. What SQLite makes of a
-- step's statements is an argument, and the steps are any list whose versions rise, as those of the
-- source do from 1 to 13. A stop between two transactions is a run over the first steps only.
--
-- Api.Throttle models internal/api/throttle.go. A time is a number of nanoseconds since Go's zero
-- time; the delay keeps the wrap-around of its 64-bit shift. The mutex makes each call one step.
-- Api.NotifyEvents models internal/api/notify_events.go: `observe` takes a check of a tunnel with the
-- state that was reported before, and returns what to report. The text of a message is what it
-- says and about which tunnel.
--
-- Api.BackupSchedule models internal/api/backup_schedule.go: what a round of backupRound reads is the
-- input of a tick, and the result of watchBackup is the ticks at which it calls sendBackup.
--
-- Clash.ProbeBroker models internal/clash/probe_broker.go as a step relation: `admit` is
-- DelayObserved up to its unlock, and the other steps are those of runProbe. The deadlines are
-- steps that may happen at any time, so that every interleaving is covered.
--
-- Clash.Connections models internal/clash/connections.go from the decoded answer of the controller on:
-- RealityConnections with its loop and addConnectionBytes, and in Clash.Connections.Rule realityRuleUser and
-- validRealityUser. The request and the decoding of JSON are inputs; Clash.Connections.Totals has the plain
-- recursion that the loop is compared with.
--
-- Qr models internal/qr/qr.go, the whole encoder: Qr.Galois the tables and gfMul, Qr.ReedSolomon
-- genPoly and rsRemainder, Qr.Version the tables of the versions and pickVersion, Qr.Stream bitStream,
-- Qr.Format maskFn and the BCH codes, Qr.Skeleton skeleton, Qr.Place place, Qr.Penalty penalty, and
-- Qr.Encode Encode. That a skeleton leaves room for its code words is a hypothesis of the theorem on
-- reading a matrix back; Qr.Tests counts the room of versions 1 and 2. A byte is a number below 256
-- with the proof of its bound. The arrays of a matrix are functions of row and column. The readers
-- that undo the stream (Qr.Stream.Reader, Qr.Stream.Gather) and the placing (Qr.Place.ReadBack) are
-- specifications, not code of the repository. Printing a matrix in a terminal is not modelled.
--
-- Singbox.PoolReject models the loop of prepare in internal/singbox/apply.go over the servers that the
-- runtime refuses, with pool_reject.go and selectPoolServers of pool.go. The generator, the files,
-- the filter of the pool and the runtime are the fields of a record Environment. They may depend on the
-- tunnels in any way; the servers of the tunnels differ in every round, so that they may differ
-- in time too.
--
-- Ingress models internal/ingressguard: Ingress.Distinct the loop that both NormalizeEndpoints and
-- normalizeManifest have, Ingress.Endpoints endpoint.go, Ingress.Manifest the manifest, and
-- Ingress.Startup ConfigEndpoints, ValidateConfig and Startup. net/netip, sha256, hex and the decoding of
-- JSON are parameters with the laws that are used. What reading a file gives is an input, and how a write
-- ends is one too: done, refused, or broken, which is an error after the change.
--
-- NetworkState models internal/networkstate: the decision of Read on a decoded record, and Invalidate
-- over a directory with what is seen in it and what has reached the disk.
--
-- Daemon models the publication of cmd/razdachad: Daemon.World has what a publication changes on the
-- disk, in the kernel and in the gate, with the monad that lists every world that is passed through, and
-- Daemon.Publish publish of network_generation.go with stagePublic and releasePublic of reality.go and
-- Commit of internal/singbox/apply.go. Each call ends as Answers says, so that a theorem for all Answers
-- holds however they fail. The gate is one that startApply makes, and its mutex makes a publication one
-- run. Daemon.Gate has the callers of publish in apply.go (recover, applyPools with withPoolServers) and
-- network_generation.go (refreshLists, networkStatus). Daemon.Revocation has PatchPeer, DeletePeer and
-- RotateReality of reality.go over the tables of Store: an Operation tells in which world the store was
-- asked, and the publication after the change has its answers from the new tables. The peers of WireGuard are
-- those of the database when it was last configured; the sync in the background (syncWGPeers) is not
-- modelled. The guard is that of the interface wg0; the public listeners have their own, with the manifest.
-- Changes to the kernel by other programs are not modelled, nor is the loss of a write that was not synced.
--
-- Not modelled: the HTTP handlers, the generation of configurations for sing-box and nftables, the
-- download of lists and subscriptions, the settings and sessions of the store, the identity of the
-- REALITY server with what is delivered to a client, the watchers of the daemon, the installer, and the
-- network.
--
-- A loop of the source that goes over a list or a counter is structural recursion. Three loops run on
-- a count of rounds: prepare has one more than there are servers in the pools; and in a
-- matrix of a given side the loop over the pairs of columns, and that over the rows of a pair, have as
-- many rounds as the side. The theorems on them show that these are enough.
pub mod Prelude
pub mod Api
pub mod Clash
pub mod Daemon
pub mod Ingress
pub mod NetworkState
pub mod Qr
pub mod Singbox
pub mod Store
