-- ===== src/Lib.antt =====
-- GoNC, a netcat with SSH tunnels: a model of its core and the theorems about it.
--
-- The program. `Execute` (cmd/root.go) overlays the environment on the flags' defaults, parses the
-- flags and arguments, parses tunnel specifications and ports (config), validates the configuration,
-- builds a mode (internal/core/builder.go) and runs it. The scan mode (internal/core/scan.go) dials
-- ports from goroutines that a channel of fixed capacity holds back. A dialer can go through an SSH
-- tunnel (internal/transport/ssh.go on tunnel/ssh.go), and a mode can hold a reverse tunnel open
-- (internal/core/reverse.go on tunnel/reverse_*.go), whose goroutines accept connections, send
-- keepalives and reconnect; both authenticate by tunnel/auth.go. Around them stand retries with
-- backoff and a circuit breaker (internal/retry), the classification of errors (internal/errors), a
-- collector of metrics (internal/metrics) and the copying of a connection to and from the terminal
-- (util/io.go).
--
-- The files, and the code they are about:
--   Prelude: the shared names; Int is Go's int as an integer, Int64 its wrap-around, Result a pair
--     of a value and an error.
--   Text: strings as lists of bytes, strconv.Atoi and Itoa, net.JoinHostPort; Decimal and Split are
--     their lemmas.
--   Errors: internal/errors/errors.go. Inside is the tree of causes that errors.As searches,
--     Classify what is retried, Texts what the errors say.
--   Retry.Backoff: internal/retry/backoff.go; Courses are the rounds of `Do`, Outcomes says what
--     it returns, Waits how long it waits.
--   Retry.CircuitBreaker: internal/retry/circuit_breaker.go; Invariant is about calls from any number
--     of goroutines, Sequential about those of one, Interleaved about calls that overlap.
--   Config: config/config.go, with Ports (ParsePortSpec, Expand, AllPorts), TunnelSpec (tunnelRe and
--     ParseTunnelSpec), Validation (Validate, with the
--     errors it returns in Reported) and Environment (config/loader.go).
--   Tunnel: SSHConfig of tunnel/ssh.go. Action is a call on the world outside, with what holds when
--     it succeeds. User is DefaultUsername of tunnel/auth.go and Auth the rest of that file: Offered
--     and Defaulted on the methods, Trusted on the host keys. Client is the handshake, Ssh is tunnel/ssh.go, with
--     Connected on `Connect`, and Manager is tunnel/manager.go.
--   Tunnel.Reverse: `Start` of tunnel/reverse_tunnel.go with tunnel/reverse_dial.go; Started, Checked
--     and Dialled are about it. Reconnect is `reconnect` of tunnel/reverse_health.go, with its Course and
--     the calls of the metrics that it makes in Quiet.
--     Running has the accept loop, the keepalive loops and the end of the context as steps; Counted
--     and Kept carry one invariant to Waited and, by way of Own and Moves,
--     to Progress, Open another to OneOpen, by way of Runs,
--     and Raced shows two orders of steps. Recorded has the calls of the metrics that the accept loop
--     and the keepalive loops make, with Due on what they add up to. Forward and Bridge
--     are tunnel/reverse_forwarder.go, with Counted on the metrics, Kept, Joined and Progress on
--     `bridgeConns`. Listener is tunnel/reverse_listener.go, Close the method of the tunnel.
--   Transport.Plain: tcp.go and udp.go of internal/transport. Capability: internal/capability; Built is
--     about what `Build` makes of it.
--   Transport.Ssh: internal/transport/ssh.go; Single is about a dialer that nobody closes, Lost about
--     one whose tunnel is gone.
--   Core: the modes of internal/core; Builder is builder.go, Scan is scan.go, with Bounded and
--     Progress on its goroutines, Filled and Complete on its results, Reported on `ScanMode.Run`.
--     Connect, Listen and Reverse are the runs of connect.go, listen.go and reverse.go, with Closed
--     and Served.
--   Cmd: cmd/root.go; Positional, Checked and Implied are about its checks.
--   Metrics: internal/metrics/metrics.go; Amounts and Interleaved are about concurrent calls,
--     Shown about snapshots.
--   Util.Logger: util/logger.go. Util.Copy: util/io.go; Kept is about every moment of
--     `BidirectionalCopy`, Joined about its return, Stopped about what closes the connection,
--     Harmless about `isHarmless`.
--   Examples: runs at concrete inputs.
--
-- How state and effects are modelled. A struct is a record, and a method that changes it returns the
-- new one. Code under a mutex is one step, as is an atomic addition or a channel operation; what
-- goroutines do is a list of such steps in any order. The channel and the wait group of `ScanPorts`
-- are counters, and a goroutine is a phase. What talks to files, the terminal, the agent or the
-- gateway maps a world to a result and the next world, of a type that is a parameter. In the step
-- relations of the tunnels, clients and listeners are numbers,
-- and a new listener is made and stored in one step. Errors are values. An int is an integer without bounds
-- where its range is checked or cannot be reached; counters and products that can wrap are written
-- with the wrap-around of 64 bits.
--
-- Parameters, for what is not in the repository: the flag parser, net.ParseIP, the dial,
-- the listener, the results of io.Copy, the sentinel errors, float64 arithmetic and random draws, the
-- clock, the texts of package time and of errors, the environment, the system's user name, and what
-- the tunnels use of packages os, net and golang.org/x/crypto/ssh (the records `Machine`, `Library`
-- and `Gateway`). Strings are bytes, so ToLower is that of ASCII, which the words it is used on are.
--
-- Fuel. The loop of `Expand` runs on the capacity that the code allocates, `Itoa` on more rounds than
-- a number has digits, `Do` on a number of attempts: its budget, or the number of the attempt that
-- ends it. `reconnect` runs on the attempts that its constant leaves. Schedules need no fuel.
--
-- Not modelled: the bytes that connections carry, what the gateway prints (`drainServerMessages`),
-- the programs that -e and -c start, usage texts and JSON.
pub mod Prelude
pub mod Text
pub mod Errors
pub mod Retry
pub mod Config
pub mod Capability
pub mod Transport
pub mod Tunnel
pub mod Core
pub mod Cmd
pub mod Metrics
pub mod Util
pub mod Examples
