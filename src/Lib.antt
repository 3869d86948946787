-- ===== src/Lib.antt =====
-- Ninj-OS Proxie Edge Fabric: the control plane of a Minecraft Bedrock proxy.
--
-- The gateway (gateway, C++) forwards players to backends. The dashboard (dashboard, Go) keeps the
-- registry of backends, issues transfer tickets that lend a public port to one player, checks the
-- signed messages of the servers' companions, hands out signed identities to backends in full-proxy
-- mode, and records the life of each transfer in a ledger. This library models that core of the
-- dashboard. The parts meet as in the program: a ticket is issued only on a port that no backend of
-- the registry owns, a change of the registry takes back the tickets whose port it claims and fails
-- their transfers in the ledger, and the identity bridge accepts a request that the replay guard
-- accepts or that carries its server's secret.
--
-- Files and code:
--   Prelude (Tests, Lists, Int, Int64): Boolean tests, lists, integers, 64-bit wrap-around.
--   GoText (Decimal, Lines), GoMap: what the code uses of Go's strings, strconv and maps. Text is a
--     list of bytes, and letters, spaces and case are those of ASCII.
--   Replay: dashboard/main.go, normalizeCompanionServerID, companionSecret, verifySignedBody,
--     acceptReplayKey, abs64. Window, Signing and Authorized hold the proofs about the time window and the
--     check, Gap the one about the edge of the window. The keyed hash is a parameter, any function.
--   Identity: dashboard/identity_bridge.go, all but the permission snapshot; storage_sqlite.go,
--     profileIdentity. Granting, Selecting, Consuming, OneUse and Bridge hold the
--     proofs. The JSON decoder and the order in which a map is visited are parameters.
--   Topology: dashboard/backends.go, backendDefinition, topologyConfig, validateTopology,
--     staticPublicPorts. Registry: decodeBackendDefinition, validateManagedPort, createBackend,
--     updateBackend, deleteBackend, handleTopologySettings and the checks of applyTopologyChange. Valid,
--     Decide and Preserve hold the proofs.
--   Tickets: dashboard/main.go, transferTicket, sanitizeTicketField, loadTransferTickets,
--     writeTransferTickets. Create: backendAvailable, resolveGatewaySourceIP, createTransferTicket,
--     profileAccess of storage_sqlite.go and availableTransferPorts of backends.go. History: sequences of
--     issues and of the listing of handleTransfersAPI. Static: removeTicketsForStaticPorts of backends.go.
--     Format, RoundTrip, Ports, Outcomes, Held and Lending hold the proofs.
--   Transfers: dashboard/storage_sqlite.go, createTransfer, updateTransfer, confirmArrival,
--     expireTransfers, each SQL statement as a function on the rows. Lifecycle, Trace, Arrival and Run
--     hold the proofs.
--   Accounts: dashboard/auth_accounts.go, loadUsersFile, handleDashboardUsers and what it calls. Protected
--     and Names hold the proofs. Hashing a password and decoding the users file are parameters.
--   Health: dashboard/control_plane.go, parseSimpleProperties, propertyBool, propertyInt, healthActionLoop.
--     Window and Switch hold the proofs. What a companion reports of TPS and MSPT is given as the
--     outcome of its comparisons.
--   Config: dashboard/config.go, parseINI, get, getBool, getInt, valueOr, intOr, boolOr, resolveConfigValue.
--     Secrets: isSecretConfigKey, redactUnifiedDocument, mergeRedactedSecrets, preserveVaultManagedSecrets.
--     Render: renderUnifiedConfig. Backends: topologyFromUnified, applyTopologyToUnified. Vault:
--     validateUnifiedConfig, validateUnifiedSecrets, and of dashboard/management.go secretLocationForID,
--     validateManagedSecret, handleManagedSecrets. Save: writeUnifiedConfig, writeAndVerifyUnifiedConfig,
--     handleUnifiedConfig. Parsing, Written, RoundTrip, Rendition, Redacted, Restored,
--     Unchanged, Transaction, and below Backends Sections, Tidy, Edge and RoundTrip hold the proofs. The disk is a record, and a record of Booleans says which writes succeed.
--   Sessions: dashboard/storage_sqlite.go, createSession, session, deleteSession, revokeUserSessions,
--     cleanupSessions; dashboard/main.go, roleRank, authenticate, requireRole; handleLogout and bearerToken of
--     control_plane.go. Login: validTOTP and handleLogin of control_plane.go; verifyUserCredential,
--     setupRequired, createBrowserSession of auth_accounts.go. Table, Entry and Standing hold the proofs. The hashes,
--     the check of a password and the Base32 decoder are parameters.
--   Commands: dashboard/main.go, sanitizeCommand, queueCommand, handleControl. Queue holds the proofs.
--   PortList: dashboard/backends.go, parsePortList. Listed holds the proofs.
--   The modules whose names end in Examples hold tests on concrete values.
--
-- State is passed explicitly; each handler that holds a lock is one step, and the clock's readings
-- are arguments: a handler that reads the clock at several points that matter to it has one argument for
-- each (the freshness and the memory of the replay guard, the three of a login, and one for each ticket
-- that is taken back). Errors are values. Times and ports are integers
-- without a bound where the code's int64 cannot wrap around for a clock that is not negative, and
-- wrap around where it can (Replay). No loop needs fuel: the loops run over lists, and the scan of the
-- port pool and the loop over a range of listed ports take as many rounds as the range has numbers.
--
-- Not modelled: the gateway, the session core, the companion and the bridges (not Go); the dashboard's
-- HTTP routing, logs, metrics, charts and Discord messages (input and output only); the owner's setup and
-- account page (auth_accounts.go); the files that prepareUnifiedConfig writes for the gateway, the
-- default configuration and the migration of legacy routes (config.go); settings, reports, uploads and
-- downloads of management.go; the vanilla agent; of applyTopologyChange, its use of the save.
pub mod Prelude
pub mod GoText
pub mod GoMap
pub mod Replay
pub mod Identity
pub mod Topology
pub mod Tickets
pub mod Transfers
pub mod Accounts
pub mod Health
pub mod Config
pub mod Sessions
pub mod Commands
pub mod PortList
