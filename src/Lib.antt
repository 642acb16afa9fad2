-- ===== src/Lib.antt =====
-- A model of the composable DRA driver (main.go and pkg/), which publishes the free devices of CDI
-- fabrics to Kubernetes as ResourceSlices and labels the nodes.
--
-- Parts. pkg/manager scans the fabrics: it reads nodes from the caches of pkg/kube_utils, asks the
-- CDI components through pkg/client, keeps a pool for each device and fabric, hands changed
-- drivers to client-go's ResourceSlice controllers and labels the nodes. pkg/config holds the
-- entries of the ConfigMap. main.go reads the command line, starts the manager in a goroutine and
-- waits for it after a signal.
--
-- Files.
-- - Base: the shared names. Base/Go has Go's results (a value, an error or a panic) and actions
--   over a state, Base/Endings properties of how they end, Base/Dict Go's maps as association lists, Base/Order the order of `range` over a
--   map, Base/Text strings.Split, HasPrefix and TrimPrefix and strconv.Itoa, Base/Int the integers.
-- - Config/Types, Checks, Random: pkg/config/config.go (Config and DeviceInfo; GetDeviceInfos with the
--   checks that it registers, and GetLabelPrefix; RandomString).
-- - Client/Types, Context: pkg/client/types.go, and the client's calls as an interface; the id of a
--   request in its context.
-- - Client/Token: pkg/client/token.go (getIdManagerSecret and the two token sources; in
--   Client/Token/Concurrent the calls of the cache that run at the same time).
-- - Client/Request, Calls, Build: pkg/client/request.go and client.go (the builder of requests; the six
--   calls, which implement the interface; BuildCDIClient and CachedIMTokenSource).
-- - KubeUtils/Objects, Caches, Lookup, Discovery: pkg/kube_utils/kube_utils.go (GetNode,
--   GetConfigMap, GetSecret and the index functions; ListProviderIDs and the two Find functions;
--   groupVersionHasResource, IsDRAEnabled, CreateKubeControllers and Run).
-- - Manager/Types, Pools, Slices, Fetch, Collect, Labels, Loop, Start: pkg/manager/manager.go
--   (the data; generatePool and updatePool; manageCDIResourceSlices; the get functions; the part of
--   startCheckResourcePoolLoop that builds the machines; manageCDINodeLabel; the whole scan;
--   initDriverResources, startResourceSliceController and cleanupResourceSlices).
--   Manager/Collect/Shared and Pointed have DeepCopy, the setting of limits and the loops over the
--   machines that do both over a store of devices.
-- - Manager/Serve: StartCDIManager in pkg/manager/manager.go, from NewClientConfig of
--   pkg/kube_utils/kube_utils.go to the deferred cleanup; in Manager/Serve/Networked with the client
--   that BuildCDIClient of pkg/client/client.go makes.
-- - Main/Pattern, Flags, Cli, Shutdown, Logging: main.go (the UUID format; the flags and their checks;
--   what urfave/cli does with them; the Action from the start of the manager to the end of the
--   process; replaceAttr). The proofs about a file stand in the files below it or, for the flags,
--   in Main/Accepted.
-- - Main/Program: main.go with StartCDIManager as its goroutine, from the preparation to the exit;
--   The files below it have its proofs.
--
-- Conventions. A Go map is a list of entries; each loop over one takes the order of iteration as
-- an argument, of which only is assumed that every entry comes once. A pointer that may be nil is
-- an `Option`, and a read through nil is a panic. An int is an unbounded integer; the int64 of a
-- pool's generation wraps. Texts are sequences of characters, whose length in bytes is that of
-- UTF-8. A time is an unbounded number of nanoseconds since 1970. An error is its message. The
-- loops recur on the list that they run over; Itoa takes one unit of fuel more than the number,
-- which is enough for its digits. Logging changes nothing and is left out.
--
-- The loop of StartCDIManager runs once for each entry of a list of turns, which stands for the turns
-- that wait.Until makes before the context is canceled; an entry has what the caches hold then. The
-- goroutines of main.go are steps in any order; a scan and the cleanup are each one step.
-- Concurrent calls of the token source race on the token that is kept; as Go's memory model has it,
-- a read yields any value that was written before it.
--
-- Not in the source, and so arguments of the model: client-go's constructors, indexers, discovery,
-- controllers and API calls, apimachinery's accessors of nested fields, and the CDI components behind
-- the client. So are net/http, encoding/json, encoding/base64, the YAML decoder, the validator, and
-- what urfave/cli made of the command line. Not modelled: the handler of the log. The test helpers are not part of the program.
pub mod Base
pub mod Config
pub mod KubeUtils
pub mod Client
pub mod Manager
pub mod Main
