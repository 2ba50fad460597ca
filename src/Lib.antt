-- ===== src/Lib.antt =====
-- Verification of the sandbox: the Go program under sandbox/sandbox that runs a command in Linux
-- namespaces with a network, a root filesystem, resource limits and a system-call filter of its own.
--
-- The parent process reads and validates a configuration (sandbox/sandbox/config), sets up the bridge, its
-- firewall (sandbox/sandbox/network) and the cgroup (sandbox/sandbox/resources), extracts an archive into
-- the root filesystem (sandbox/sandbox/rootfs), and sends the configuration through a pipe
-- (sandbox/sandbox/internal/ipc) to the child, which drops its capabilities, installs the filter
-- (sandbox/sandbox/security) and executes the command.
--
-- Prelude holds the helpers: Boolean tests on native numbers and texts, lists, results, chains that fail
-- and change a state (Run), lists of distinct texts (Seen), bits of native numbers (Bits), and Go's int as
-- an integer (Int). Text and Paths hold the functions of Go's packages strings and path that the program
-- calls. A string is the list of its code points.
--
-- Security models sandbox/sandbox/security/seccomp.go: Security/Bpf runs a filter by the rules of classic
-- BPF, Security/Names is about the numbers of system calls, Security/Verdict compares a run with the
-- policy, Security/Apply installs a filter. The tables of an architecture, the constants of the kernel and
-- its answers are parameters.
--
-- Network/Address and Network/Types model IPv4 prefixes and BridgeConfig.Validate of
-- sandbox/sandbox/network/types.go. Network/Host is the host behind netlinkOps, firewallOps, runIP and
-- routeList: a log of all calls, each with whether it succeeded, and answers that may depend on the log.
-- Network/Firewall models sandbox/sandbox/network/iptables.go, Network/Bridge bridge.go. In
-- Network/Firewall/Tables the log is read as the state of the kernel's tables, in Network/Bridge/Links as
-- the links of the host. A manager is compared by identity, which is a number.
--
-- Config models sandbox/sandbox/config/config.go: Config/Types the records, Config/Environment,
-- Config/Capability, Config/Remote and Config/Binds the parts of Validate, Config/Validate the whole.
-- url.Parse, net.ParseIP and runtime.GOARCH are parameters.
--
-- Resources/Storage models sandbox/sandbox/resources/storage.go with words of 64 bits. Resources/Cgroup and
-- Resources/Lifecycle model cgroup.go over the filesystem of Resources/Files, a log of changes with answers
-- that may depend on it. Products that Go takes modulo 2^64 are written so.
--
-- Ipc models sandbox/sandbox/internal/ipc/ipc.go. JSON and the validation are parameters; writeFull has the
-- length of the frame as fuel, and each write takes a byte at least, so it is enough.
--
-- Archive/Names, Archive/Extract and Archive/Files model sandbox/sandbox/rootfs/extract.go; Archive/Disk is
-- what it takes from the archive library and the system. The loops over `./` and over the parents of a name
-- have its length as fuel; each round takes a character at least.
--
-- Network/Exported models the exported functions on a bridge state that may be nil, and Cli the lists of
-- sandbox/sandbox/args.go.
--
-- Network/Loopback models sandbox/sandbox/network/loopback_linux.go.
--
-- Process holds what the two processes share: the words that wait returns, waiting for the command among its
-- orphans, and the loops that forward signals, which take what their select chooses from a list.
-- Child/Start models Child and runInit of sandbox/sandbox/child/child.go: the functions that they call are
-- stages, each of which succeeds or not, as a log of stages may decide. Child/Capabilities models
-- dropCapabilities with the kernel's calls.
--
-- Parent/Steps and Parent/Run model Parent of sandbox/sandbox/parent/parent.go over a log of calls, with
-- deferred calls as code around the code that they wait for. Parent/Held is a machine that says which calls
-- are in order; Parent/Environment models the environments of parent.go and terminal.go.
--
-- Isolation models the functions of sandbox/sandbox/fs/isolation.go: Isolation/Calls the system calls, a log
-- of which is kept and may decide the kernel's answers, Isolation/Mounts and Isolation/Targets the mounts
-- and the walk to their targets, Isolation/Devices the private /dev, Isolation/Sources the devices of the host, Isolation/Stage the staging
-- directory.
-- A descriptor is the number of calls before the one that opened it, so no number is used twice; -1 is
-- none. A deferred Close is code around the code that it waits for. IsolateRootFS, which calls them, is
-- not modelled, nor is the mount of the resolver's file.
--
-- Not modelled: the messages of errors, mutexes (each component is run by one thread), the commands behind
-- the interfaces, progress reports, the copying loops of the terminal, sandbox/sandbox/rootfs/rootfs.go, the
-- flags and the loader of YAML, and the files for other platforms.
pub mod Prelude
pub mod Text
pub mod Paths
pub mod Network
pub mod Process
pub mod Child
pub mod Parent
pub mod Isolation
pub mod Security
pub mod Config
pub mod Resources
pub mod Ipc
pub mod Archive
pub mod Cli
