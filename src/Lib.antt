-- ===== src/Lib.antt =====
-- suite_connector: a model of Eclipse Kanto's suite connector, which relays messages between a local
-- MQTT broker and a hub in the cloud, and theorems about it.
--
-- The program. A device's local clients publish events and telemetry and subscribe to commands at a
-- local broker. The connector holds one connection to that broker and one to the hub. routing/events.go
-- gives a local message its topic at the hub; routing/commands.go hands the hub's requests to the local
-- clients, remembers them in a cache until they time out, and lets only their responses through;
-- routing/subscription.go reads the broker's log, so that the hub is subscribed to exactly what local
-- clients want, which connector/subscription_manager.go counts. connector/ holds the connections with
-- their reconnect loop, publishers and subscribers; config/ the settings, the set-up of the connections
-- and the first connect to the hub; cmd/connector/app/eventloop.go restarts all of it when the file of
-- the settings changes; routing/service.go reports the state of the hub connection.
--
-- The files. Names of functions are those of the source in the spelling of this library (ParseTimeout
-- is parse_timeout); a file that only proves stands below the one that it is about.
--   Prelude: Boolean tests, lists, integers, texts (Go strings as lists of bytes), and Outcome, the end
--     of a Go call: a value, an error or a run-time panic.
--   Util/Topic, Util/Timeout, Util/File: util/utils.go. Util/Certificate: util/certificate.go.
--   Connector/Context: connector/context.go. Connector/Subscriptions: connector/subscription_manager.go;
--     Connector/Subscriptions/Bag has the bag of topics that it stands for, as a quotient of lists.
--   Connector/Listeners, Connection, Reconnect: connector/connection.go, with the registry of
--     subscriptions, the listeners and externalReconnect. Connector/Config: connector/config.go and
--     createClientOptions.
--   Connector/Connection/Disposal: a record of the registry, as unsubscribe and onConnected interleave;
--     Connector/Connection/Waits: the wait for the answers to the subscribe packets.
--   Connector/Publisher, RateLimiter, Wrapper, Subscriber: the files of connector/ of these names;
--     Subscriber/Loop has the message loop as interleavings. Connector/Dynamic: the dynamic subscriber
--     of connector/subscriber.go. Connector/Trace: connector/trace.go. Connector/Stubs:
--     connector/nop_store.go and connector/publisher_mock.go.
--   Cache/Queue: the priority queue of cache/cache.go, over the functions of container/heap. Cache/Table:
--     Cache of cache/cache.go, with its cleaner. Cache/Control: its operations as they interleave.
--   Routing/Gateway: routing/utils.go. Routing/Events: routing/events.go and routing/timestamp.go.
--   Routing/Commands: routing/commands.go. The handlers take the cache through an interface of operations
--     and laws, RequestCache, which Routing/Commands/Pending fills with Cache/Table.
--   Routing/LogMessage, Routing/Subscription: routing/subscription.go. Routing/Status: routing/service.go.
--   Routing/Buses: the handlers that the launcher and Run add to their routers, from the four files.
--   Config/HonoConnect, LocalConnect, Connections, Setup: config/connections.go. Config/Settings, Files:
--     config/settings.go.
--   Config/Provisioning: config/parse_provisioning.go. Config/Tls: config/tls_config.go.
--   Tpmtls/Connection: tpmtls/tpm_connection.go. Tpmtls/Context: tpmtls/tpm_context.go, with the methods
--     in Tpmtls/Context/Methods.
--   App/EventLoop, App/Run: cmd/connector/app/eventloop.go. App/Launcher: cmd/connector/launcher.go.
--     App/Main: cmd/connector/main.go, with the fields of the settings by their names in
--     App/Main/Fields. Flags: flags/flags.go, with the kinds of values in Flags/Values.
--   Logger, Logger/Setup: logger/level.go and logger/config.go. Logger/Output: logger/logger.go.
-- The modules Tests hold runs on concrete inputs.
--
-- How it is modelled. State is passed and returned; calls on an MQTT client, notifications and reports
-- are lists, in the order in which they are made. A loop that waits for its surroundings (the
-- reconnect loop, HonoConnect, LocalConnect, the event loop) takes what they do as a list of rounds or
-- inputs, and a list that ends leaves the loop running. The loops of the cache are on fuel and panic
-- where it runs out: an element that rises has one step more than its index, one that sinks and
-- clearExpired one more than the queue is long; the theorems that they do not panic show that this is
-- enough. An index or a slice out of range is a panic. An element of the cache is known by its
-- address, so that queue and map share it. Integers of 64 bits wrap around where the source multiplies
-- (wrap64); a duration is a number of nanoseconds. A map is a list of its entries. Libraries are
-- arguments: parsing of addresses, JSON, the limiter, TLS, the file system and the namespaced ids.
--
-- Concurrency. Where the order of goroutines matters, for the message loop of a subscriber, the
-- registry of a connection and the cache with its channel, a state and a step for each event are
-- given, and a run is any list of events: what stands under a mutex is one step, what does not is a
-- step of its own. Elsewhere an operation is one step, and one run of clearExpired has one time.
--
-- What is not modelled. The router itself, which is a library, the parsing of the
-- command line, the exporter of log lines and the helpers of the tests (testutil) are left out: they are
-- input and output, or calls of libraries. The time stamp and the JSON text of a status are left out.
pub mod Prelude
pub mod Tpmtls
pub mod Util
pub mod Connector
pub mod Routing
pub mod Config
pub mod App
pub mod Flags
pub mod Logger
pub mod Cache
