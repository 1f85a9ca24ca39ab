-- ===== src/Lib.antt =====
-- go-plugins: plugins for the go-micro framework.
--
-- The repository is a collection of plugins, one directory each, that share go-micro's interfaces
-- (registry, broker, selector, codec, client, transport). A client asks a registry for the nodes of a
-- service, a selector picks one of them, a codec carries the call over a transport; a broker finds its
-- subscribers by the registry. Most plugins hand their calls on to a client library. Modelled are those with logic of their own:
--
--   Prelude           names and lemmas on lists, tests, dictionaries and outcomes that the rest shares
--   Registry          go-micro's Service, Node and Endpoint, as the plugins read them
--   Registry/Nats     registry/nats/nats.go and util.go. State: the record natsRegistry and register,
--                     deregister, Register, Deregister, the answer of the query subscriber. Util: the
--                     list helpers addNodes, delNodes, addServices, delServices. Query: the loop of
--                     `query` over a list of events, ListServices, setAddrs. Merge and Deregister hold
--                     proofs.
--   Registry/Gossip   registry/gossip/gossip.go and watcher.go. State: gossipRegistry, the updates,
--                     NotifyMsg, MergeRemoteState. Run: run, expiryLoop, Register, Deregister,
--                     GetService, ListServices. Members: connect, connectLoop, eventLoop, Stop,
--                     configure. Watcher: subscribe and Next. Channel: the bounded channel of updates as
--                     a step relation. Stored, Refinement and Expiry hold proofs.
--   Broker/Http       broker/http/http.go. State: httpBroker, saveMessage, getMessage, subscribe,
--                     unsubscribe. Publish: Publish with its closures pub and srv and its goroutine.
--                     Serve: ServeHTTP. Lifecycle: Connect, Disconnect, run, Init, Subscribe. Locking:
--                     the lock and the exit channel as a step relation. Inbox, Delivery, Backlog,
--                     Subscribers and Shutdown hold proofs.
--   Registry/Consul   registry/consul. Tags: encoding.go, the codecs of endpoints, metadata and versions.
--                     Agent: Register and Deregister of consul.go, Find: GetService. Watch: watcher.go,
--                     serviceHandler and handle. Format, RoundTrip, Checks, Joined, Listing, Replay,
--                     Handlers and Listed hold proofs.
--   Registry/Kubernetes
--                     registry/kubernetes. Pods: serviceName, Register, Deregister and GetService of
--                     kubernetes.go. Watch: ListServices, and watcher.go with updateCache,
--                     buildPodResults and handleEvent. Annotations, Changes and Events hold proofs.
--   Registry/Eureka   registry/eureka: appToService and serviceToInstance of marshalling.go, Register,
--                     Deregister and ListServices of eureka.go, the updates of watcher.go. Instances
--                     holds proofs.
--   Registry/Zookeeper
--                     registry/zookeeper: Register and Deregister of zookeeper.go, nodePath and createPath
--                     of util.go, over an interface of the client; Query is GetService and
--                     ListServices. Written and Found hold proofs.
--   Codec/MsgpackRpc  codec/msgpackrpc: Encode and Decode are rpc.go, Stream is codec.go, over the Writer and
--                     the Reader of msgp. Layout, RoundTrip, Exchange, Bodies and Exclusive hold proofs.
--   Registry/Multi    registry/multi/multi.go: the collector of the answers as a relation. AnyOrder holds
--                     proofs.
--   Broker/Grpc       broker/grpc/grpc.go: Publish of the broker and of its handler, subscribe, unsubscribe,
--                     Connect, Disconnect, run. Delivery holds proofs.
--   Client/Http       client/http: next, call and Call of http.go; Streams is Stream and stream.go, Publish
--                     is Publish. Retries holds proofs.
--   Codec/JsonRpc2    codec/jsonrpc2. Json: raw values and messages. Errors, Server, Client, Dispatch:
--                     errors.go, server.go, client.go, jsonrpc2.go. Members, Pending and Correlation
--                     hold proofs.
--   Selector          Label: client/selector/label/label.go. Shard: client/selector/shard/shard.go.
--                     Priority, Rotation and Scores hold proofs.
--   Config/Consul     config/source/consul: makeMap of util.go; Source is Read and the watcher. Paths,
--                     Keys and Changes hold proofs.
--   Micro/Router      micro/router: Match and Write of routes.go, Less of sort.go, update, run and Handler
--                     of router.go. Choice holds proofs.
--   Transport/Nats    transport/nats: the listener with its sockets as steps, Calls is Send, Recv, Dial and
--                     Listen; Queue is the specification of a socket. Order, Ready and Answers hold proofs.
--   Wrapper/Breaker   wrapper/breaker/gobreaker: Call, over an interface of the breaker. Reports holds
--                     proofs.
--   Wrapper/Select    wrapper/select: Call of roundrobin and shard, filterLatestVersion of version. Turns
--                     and Version hold proofs.
--
-- Tests at concrete inputs stand in each part's module Examples, and of the watcher of
-- registry/consul in WatchExamples.
--
-- State and effects. A method that changes its receiver is a function that returns the new record;
-- calls of the world (registry calls, POSTs, broadcasts, what is put on a channel, bytes written) are
-- collected in lists of that record. An error is a value: an Option, an Outcome, or a data type with a
-- constructor for each. A panic is a value too. A map is an association list; a loop over a map runs
-- in the list's order, while Go chooses any, and no two entries have one key where a theorem says so.
-- Locks are left out, save in Gossip/Channel, Http/Locking and the flag that configure leaves: elsewhere
-- each critical section is one step, and the steps of Transport/Nats come in any order. The answers that registry/multi collects come in any order.
--
-- Numbers. Counters, lengths and times are natural numbers. The sequence number of the JSON-RPC server
-- wraps at 2 ^ 64, and so do the round robin's counts; the shard's remainder is taken at 2 ^ 32. An inbox
-- holds 64 messages, and a publication takes 8, the source's own constants. No function runs on fuel:
-- loops over lists recurse on the list, and loops that wait for channels recurse on the list of what
-- arrives; where that list ends the loop still waits.
--
-- Parameters, for code that is not in the repository: the NATS connection and its answers; memberlist,
-- hashstructure and go-micro's regutil.Merge and Remove; the HTTP client, the codec and the random
-- choice of the broker; encoding/json, reflect and strconv of the codec; highwayhash of the selector;
-- the Consul agent's answers, zlib, hex and hashstructure; the Kubernetes API client; sort.Sort, the
-- random numbers and the floats of the router; crc32; the clients of Eureka and ZooKeeper, the latter an
-- interface with laws; package net of ip_allow; what gRPC and the registry answer to broker/grpc; the
-- Writer and the Reader of msgp, and the connection, of codec/msgpackrpc; the connection, the codec and
-- the clock of transport/nats; the selector, the codecs, net/http and the broker of client/http; the
-- listing, the clock, the encoder and the checksum of config/source/consul.
-- What a theorem needs of one of these is among its hypotheses.
--
-- Not modelled: options and configuration, TLS, logging, the strings that are only printed, generated
-- code and mocks, the sharing of one update by pointer between the gossip registry's map and its
-- channel, a nil service in an answer to the query of registry/nats, on which it panics, and every
-- plugin that only translates between go-micro and a client library.
pub mod Broker
pub mod Client
pub mod Codec
pub mod Config
pub mod Micro
pub mod Prelude
pub mod Registry
pub mod Selector
pub mod Transport
pub mod Wrapper
