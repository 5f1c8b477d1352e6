-- ===== src/Lib.antt =====
-- knative control-protocol: the messages that a control plane and its pods exchange over one TCP
-- connection, the connections that carry them, the services that send them and wait for acks, and
-- the control plane's stores of what the pods have answered.
--
-- How the parts interact. A controller dials its pods through a connection pool. Each connection
-- has a write queue and a read queue, and loops that move messages between the queues and the
-- `net.Conn` of the moment. A service puts messages on the write queue, waits for the ack of each,
-- and gives those that it reads to a handler. A command is acked when it arrives, and its result is
-- sent back as a message of its own, which the controller keeps in a notification store.
--
-- The files, and the code they model:
--   Prelude       shared names, Boolean tests, lists over native numbers, keys and maps
--   Errors        pkg/network/errors.go, and Go's error values
--   Wire          encoding/binary's big-endian numbers; `io.Writer`, and `io.ReadFull` over a stream
--                 of arrivals (chunks of bytes, and failures)
--   Message       pkg/message.go: `new_message`, `write_to`, `read_from` and their helpers
--   AsyncCommand  pkg/message/async_command_result.go and async_command.go
--   Network/Queue       pkg/network/message_queue.go, as atomic steps of its goroutines
--   Network/Connection  pkg/network/base_connection.go: `connRead`, `connWrite` and the two loops;
--                 in Network/Connection/Consuming, `consumeConnection` with its three goroutines,
--                 and in its Asleep, a wake-up that is missed
--   Network/Client      pkg/network/client_connection.go and constants.go
--   Network/Server      pkg/network/server_connection.go
--   Network/TlsConfig   pkg/network/tls.go
--   Service       pkg/service.go and pkg/service/built_in_handlers.go: messages, acks, handlers
--   Service/Acks        pkg/service/service.go; in Service/Acks/OverTheWire, two services over the
--                 loops of two connections each way
--   Service/Router, Service/Caching, Service/AsyncHandler
--                 pkg/service/message_router.go, service_caching_wrapper.go and
--                 async_command_handler.go; in Service/Caching/Interleaved, calls that interleave
--   Reconciler/NotificationStore  pkg/reconciler/notification_store.go; in Replay, its contract
--   Reconciler/CommandResults     pkg/reconciler/async_command_notification_store.go
--   Reconciler/ConnectionPool     pkg/reconciler/connection_pool.go; in Interleaved, goroutines that
--                 share a pool; in Making, how it is made, with connection_pool_option.go
--   Reconciler/PodAddresses, Reconciler/TlsDialer
--                 pkg/reconciler/pod_ip_getter.go and tls_dialer_factory.go
--   Reconciler/Nested   what the maps of maps of the stores and of the pool share
--   Certificates  pkg/certificates: constants.go, certs.go and key_pair.go
--   Certificates/Reconciler  pkg/certificates/reconciler/certificates.go, and the names of
--                 controller.go; in Certificates/Reconciler/Cluster, calls on a cluster of secrets
--   Certificates/Controller  pkg/certificates/reconciler/reconciler.go: `Reconcile` around a reconciler of
--                 secrets, with its finalizers; in Settling, that of the certificates in it, whose lister
--                 reads the cluster, in Wiring, what enqueues its keys, and in Making,
--                 controller_impl.go and the constructor of controller.go
--   Tests         runs at fixed inputs, and the theorems at inputs that meet their hypotheses
-- Functions carry the source's names. A Go value of a struct that is changed in place is passed in
-- and returned; a nil pointer, slice, error or interface is `none`. Bytes are numbers in lists, and
-- a conversion to an unsigned type is written as the remainder that it takes.
--
-- Loops. `reader_loop`, `writer_loop`, `redial_loop` and `listen_loop` run for a number of rounds,
-- as the code's run until something stops them; `again`, or `none` for the last two, says that the
-- rounds ran out. The theorems on them hold for every number of rounds, or give the number that is enough.
-- `tryDial` has its own bound. All other loops run over a list.
--
-- Parameters. The `io.Writer` of a conn is any that keeps the contract of the `io` package: it takes
-- a prefix of what it is given, and all of it where it returns no error. The bytes of the other
-- direction arrive in any parts. The dialer, the TLS dialer factory, the client that a pool starts,
-- handlers, payload types, parsers and mergers are any functions. `uuid.New` is an argument.
-- The crypto libraries, PEM and the clock are parameters of the certificates, and `strconv.Atoi` of
-- the server's port. A context's number stands for its `cancelFn`. The lister and the API client of
-- the certificate reconciler are functions, and its times are nanoseconds.
--
-- `reconcilerImpl` is over any state of the cluster, on which the lister, the API client, the recorder
-- and the wrapped reconciler are functions.
--
-- Goroutines. A queue, a connection, the calls of a caching service and those of a pool are step
-- relations: a schedule says whose step is next, and a step goes to the next use of a lock or channel.
--
-- Not modelled: the informers, the work queue and the event broadcasters of the certificate controller, which
-- are parameters; logging, the lengths of timeouts and the values that error texts print; tests, mocks
-- and vendored code.
pub mod Prelude
pub mod Errors
pub mod Wire
pub mod Message
pub mod AsyncCommand
pub mod Network
pub mod Service
pub mod Reconciler
pub mod Certificates
mod Tests
