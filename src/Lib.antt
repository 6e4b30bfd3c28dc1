-- ===== src/Lib.antt =====
-- The core of an OpenHarmony system built on a Mac, as the sources of this repository have it: how init
-- runs its services, how the device manager of the hardware driver foundation runs its hosts, how init
-- loads its plugins, and how appspawn makes the processes of applications.
--
-- The parts, their files and the code that they are about:
--
-- Service: mac/base/startup/init/services/init/init_common_service.c, with what it calls of
--   standard/init_service.c in the same directory. Types holds the service, the calls that init makes and
--   the answers of the system (`Env`), and NotifyServiceChange. Start is ServiceStart, Child the forked
--   process from RunChildProcess to ServiceExec, Stop is ServiceStop, Reap is ServiceReap with all it
--   leads to. Perms and Caps are SetPerms and its parts, Fds the held descriptors, Timer the timers,
--   Crash is CalculateCrashTime, and Life puts the operations together: what a service can become.
-- Hdf: mac/drivers/hdf_core/framework/core/manager/src/devmgr_service.c. Types holds the hosts and the
--   environment. Process starts and stops the process of a host, Device loads and unloads devices on
--   demand, Left is the second preload step, Token attaches and detaches devices, Hosts brings the hosts
--   up, Power tells them of power changes, Reply lists all devices.
-- ModuleMgr: mac/base/startup/init/interfaces/innerkits/modulemgr/modulemgr.c. Names is about names and
--   paths, Store about the modules of a manager, Scan about the directories that it reads.
-- AppSpawn: mac/base/startup/appspawn/modules/modulemgr/appspawn_modulemgr.c (Modules and Hooks) and
--   mac/base/startup/appspawn/common/appspawn_server.c (Child).
-- Spawner: mac/base/startup/appspawn/standard/appspawn_service.c, the server of appspawn. State holds its
--   content, contexts and messages, and what lies outside the file. Connection, Receive and Dispatch take a
--   client's messages; Request is a request to spawn, with Context for the child that is waited for and
--   Prefork for children forked ahead; Reply is how such a child ends, Stop how the server does. Debug,
--   Remount and Cold are debug messages, new web cores and cold starts; Start is the life of the server.
--   Life puts a request, the ends of its child and the close of its connection together.
-- Sandbox: mac/base/startup/appspawn/modules/sandbox/sandbox_load.c. State holds the rules and what lies
--   outside, over an arbitrary type of JSON values; Values are single values, Nodes paths and links, Gids
--   and Groups the groups of users and of mounts, Base what all sections have, Config the sections and
--   Load whole files.
-- Common: names, lists, Boolean tests and integers that all parts share.
--
-- How the code is translated: a function of the source is a function of the same name in this spelling,
-- from the state before to the state after, with helpers for its blocks. The state holds a trace of the
-- calls made, the newest first; what a call answers is a function of the trace so far, a field of `Env`, so
-- that each theorem holds for every behaviour of the kernel, of other libraries and of other threads
-- between two calls. Error codes, faults (an access outside an array or through a null pointer) and the end
-- of a child are values. The rules of sandboxes are values too, and no calls are recorded for them.
--
-- Bounds: loops over lists are recursion on the list. The wait for a host takes its number of rounds as an
-- argument, which the source fixes at WAIT_HOST_SLEEP_CNT. The loop over the messages of a buffer takes
-- fuel, one for each message. Identifiers, offsets, sizes and the time of the first crash have the
-- wrap-around of 32 bits; counters that the code keeps under a limit are natural numbers.
--
-- Not modelled: messages to the log, code of debug builds and handlers added for debugging, which change
-- nothing that the rest reads; the event loop, the parameter service and the libraries that init calls,
-- which are fields of `Env`; the queues of appspawn and the parser of its messages, which are calls and
-- fields; the JSON library and the queues of sandbox sections, which are parameters; the other side of the
-- device manager (devhost) and the start arguments of appspawn, which lie in files of their own.
--
-- The parts meet at their calls: ServiceReap and the timer callbacks call ServiceStart, ServiceStart forks
-- the child that calls SetPerms and PublishHoldFds, ServiceStop closes the descriptors and stops the timer;
-- DevmgrServiceLoadDevice starts the process of the host. The server of appspawn spawns by AppSpawn's
-- AppSpawnProcessMsg, and records what that called.
pub mod Common
pub mod Service
pub mod Hdf
pub mod ModuleMgr
pub mod AppSpawn
pub mod Sandbox
pub mod Spawner
