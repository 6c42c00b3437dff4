-- ===== src/Lib.antt =====
-- A verification library for zingthings, which runs device protocols in containers and moves them
-- between containers through etcd.
--
-- The program's parts. A container (pkg/protocol/container) takes requests to deploy and undeploy
-- protocols. It starts each protocol (pkg/protocol/extension/protocol), which opens a channel for
-- its devices (pkg/protocol/core/channel.go) over a pipeline of handlers that all protocols share
-- (pkg/protocol/core/pipeline.go, channel_handler.go), registers it in a protocol manager
-- (protocol.go) and publishes the fact on an event bus (event_bus.go). Messages come up and go down
-- the pipeline by uplink.go and downlink.go. Coordinators (pkg/deploy) watch the containers in etcd
-- and dispatch the protocols of those that are gone, each coordinator those of its own slot.
--
-- The files.
--   Base: lists, texts (Go strings as bytes), maps as association lists, integers, and the outcome
--     of code that can panic.
--   Core.Types, Core.Handler: pkg/protocol/core/types.go and channel_handler.go.
--   Core.Pipeline: pkg/protocol/core/pipeline.go. add_first is AddFirst, and so on. The contexts are
--     on a heap, with the pointers next and prev as addresses and 0 as nil. Below it, Chain and View
--     say when a heap holds a list of contexts, and Add, Remove, Replaced, Send and FanOut hold the
--     theorems on the operations.
--   Core.Channel, Core.Link, Core.Protocol, Core.EventBus: the files of those names in
--     pkg/protocol/core, with uplink.go and downlink.go in Core.Link.
--   Core.Info, Core.Document: the keys of info.go, and the documents that are stored under them.
--   Core.Setup: the registry of channel handlers in channel_handler.go and its set-up.
--   Core.Answer: Response of types.go and protocolAll of pkg/protocol/container/container.go, over a
--     ResponseWriter.
--   Extension: Start and Stop of the HTTP client, the HTTP server and the TCP server. Report has the
--     reports that an HTTP server takes from devices, Requests what an HTTP client asks (Execute and
--     dealRequest of httpclient.go), and Connection the loop on a TCP connection (handlerCon of
--     tcpserver.go), with Go's encoding/hex in Hex, and Accept the loop that accepts connections.
--   Container: pkg/protocol/container/container.go over the state Process; in Container.Register what
--     pkg/protocol/register/etcd_register.go keeps in etcd about its protocols. Container.Announce
--     joins the two by the event bus, Container.Machine is the port and the node of a container, and
--     Container.Wrapper the ProtocolWrapper of pkg/protocol/core/protocol.go.
--   Outside, Client: etcd, the HTTP transport and the clock as a record of operations on a state of
--     their own, of which theorems assume only what their hypotheses name; and
--     pkg/protocol/container/client/client.go.
--   Deploy: pkg/deploy/protocol_coordinator.go. Nodes has the known nodes and their slots, Balance
--     the round robin, Hash the hash of an id, Query the questions to etcd, Schedule the choice of a
--     protocol, Dispatch its move to a live container, Fault the reaction to the watches, and Startup
--     what register does with the keys at the start. Deploy.Fault.Interleaved has several coordinators
--     over one etcd, whose steps are the events of their watches in any order. WithDb is
--     protocol_coordinator_with_db.go. Server is pkg/deploy/deploy.go, which spreads the replicas of a
--     protocol over the live containers.
--   Kafka: ConsumeClaim and filterTopics of pkg/protocol/kafkadown/sarama_kafka_down.go, in
--     Kafka.Refresh its EqualSlices and refreshTopics, and in Kafka.Up the deal function of
--     pkg/protocol/channelhandler/sarama_kafka_up.go. Kafka.Start is the start of the consumer.
--   ChannelHandler: the record of reports of
--     pkg/protocol/channelhandler/record_device_report_offline_up.go in memory, in
--     ChannelHandler.Redis that in Redis, device_online_up.go, and in ChannelHandler.Events
--     pkg/protocol/events/device_event.go.
--   Util: pkg/util/splice/splice.go, pkg/util/env/env.go and pkg/util/network/network.go, and in
--     Util.Lease the loops with which coordinators and containers keep their leases.
--
-- Conventions. A function that changes state takes it and returns it. An operation that takes a
-- lock, and a handler of a request, is one step. A goroutine that a handler starts is a call that
-- is made, its effect on what the caller goes on with left out. A Go map is an association list in
-- the order in which a range comes to its entries; theorems hold for every order. Panics are values
-- of Outcome.
--
-- Bounds and fuel. Walks over the pipeline have fuel, and the theorems on them ask for more fuel
-- than there are contexts. The loop of dispatchToAlive has fuel for seven passes, which its counter
-- never exceeds. Scans of Redis have fuel for their pages, and the theorems are on one page. Hashes
-- are natural numbers modulo 2 ^ 64. Integers in documents are read if they fit in 64 bits.
--
-- Parameters. json.Valid, json.Marshal of an answer, json.Unmarshal of an HTTP request, the pattern
-- of the topics, the answers of the Kafka and Redis clients and of HTTP servers, and the order in
-- which Go runs over the registry of handlers are arguments of the definitions that use them.
--
-- Not modelled: the start of the HTTP servers, logging, configuration, and the main programs.
-- Kafka.Start ends at the first change of the topics, since what follows depends on how the Kafka
-- client closes a group.
pub mod Base
pub mod Util
pub mod Core
pub mod Extension
pub mod Container
pub mod Deploy
pub mod Kafka
pub mod ChannelHandler
pub mod Client
pub mod Outside
