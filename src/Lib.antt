-- ===== src/Lib.antt =====
-- A verification library of xbatd, the measurement daemon of xbat (src/xbatd/src). On each node
-- of a job the daemon runs one thread per collector; the collectors read counters of the system
-- in synchronous intervals and push data points into one queue; a writer thread takes them out
-- and sends them to QuestDB; a watchdog looks for threads that hang.
--
-- Files and code:
-- * Base, Base/*: shared names; signed numbers over the native ones (Int); results that return
--   an error code or throw (Outcome, Gives); std::map as a list in the order of the keys (Maps);
--   the operations on double as an interface (Float).
-- * Queue, Queue/*: src/xbatd/src/CQueue.hpp. Ilp, Entry and IlpEntries are its types;
--   push_multiple, push_single, wait, wait_and_pop, wait_and_pop_all, drop_data and has_data its
--   methods. Every method runs under the mutex and so is one step; what happens while a wait has
--   released the mutex is the argument Wake. Queue/Steps has the step relation of producers,
--   pending notifications and the one consumer.
-- * Collector, Collector/*: src/xbatd/src/CDataCollectionBase.{hpp,cpp}. The record Collector is
--   the object's state; each method is a function of it and of the readings of the clock and of
--   the flag terminate that it makes.
-- * Watchdog, Watchdog/*: watchdog of src/xbatd/src/main.cpp; stop and terminated of
--   src/xbatd/src/threadhelper.cpp. The start of the threads is in Startup.
-- * Text, Text/*: the string functions of src/xbatd/src/helper.{hpp,cpp} on lists of bytes, and
--   the std::string functions they use; Text/Numbers has std::stoull, std::stoll, std::stoi and
--   std::to_string, Text/Encoding encode64, decode64 and md5.
-- * Cpu, Cpu/*: src/xbatd/src/CCpuStat.cpp. read_proc and calculate_usage are its methods of
--   these names.
-- * Interconnect, Interconnect/*: src/xbatd/src/CInterconnectEthernet.cpp and
--   CInterconnectInfiniband.cpp, which share calculate_usage up to the table of metrics.
-- * Memory, Memory/*: src/xbatd/src/CMemUsage.cpp.
-- * Measure, Measure/*: measure of these four collectors (CPU, Ethernet, InfiniBand and memory).
--   A Round holds what one round finds: the readings of the clock, the flag at its tests, and
--   the contents of the files. delta_turn is a round with two readings, snapshot_turn one with a
--   single reading, and Measure/Runs has one definition for each class.
-- * Power, Power/*: src/xbatd/src/CEnergyIpmi.cpp and CXilinx.cpp, with their loops, and
--   getCommandOutput of src/xbatd/src/helper.cpp. What a command prints, with the marker and its
--   exit code, is an argument.
-- * Disk, Disk/*: src/xbatd/src/CIOStat.{hpp,cpp}, with its loop. A Report is what the JSON
--   library reads from the output of iostat.
-- * Gpu, Gpu/*: src/xbatd/src/CNvidiaGPU.{hpp,cpp} (Gpu/Nvidia) and CAMDGPU.{hpp,cpp} (Gpu/Amd),
--   with their loops. A Device and a Processor hold what NVML and AMD SMI answer for a GPU in
--   one round.
-- * Likwid, Likwid/*: src/xbatd/src/CLikwidPerfctr.{hpp,cpp}. Likwid has the preparation,
--   Likwid/Results and Likwid/Sets have measureSets, Likwid/Loop has measure; what likwid
--   answers in a round is a Cycle.
-- * Tasks, Tasks/*: the collectors as one type, whose measure is the one that
--   createThreadAndMeasure of src/xbatd/src/CDataCollectionBase.cpp calls.
-- * Startup, Startup/*: init of src/xbatd/src/threadhelper.cpp: the start time of the job and
--   the list of collectors.
-- * Topology, Topology/*: getCpuTopology of src/xbatd/src/topology.cpp on what likwid answers.
-- * Rest, Rest/*: src/xbatd/src/CurlClient.{hpp,cpp}. A client also keeps the requests that it
--   has sent; the server, the JSON library and the base64 encoding are parameters.
-- * Files has readFileToString, writeToFile and deleteFile of src/xbatd/src/helper.cpp, on a map
--   from paths to contents.
-- * Bench, Bench/*: benchmarkSystem of src/xbatd/src/main.cpp; what the commands print is an
--   argument.
-- * Config, Config/*: config_map of src/xbatd/src/definitions.hpp: what main puts into the
--   configuration, and what it, writeToDb, init and initLogging of src/xbatd/src/CLogging.cpp
--   read.
-- * Logging, Logging/*: src/xbatd/src/CLogging.{hpp,cpp}. A Logger is the logger that the
--   threads share with the calls they make, each with the attribute that setModule gave to its
--   thread; Attributes is the interface of Boost.Log.
-- * Main, Main/*: main and sigHandler of src/xbatd/src/main.cpp, from the command line to the
--   start of the measurements, on top of Config, Files, SystemInfo, Rest, Topology and Bench. A
--   Setup holds what main finds around it.
-- * Writer, Writer/*: addToBuffer and writeToDb of src/xbatd/src/main.cpp. The QuestDB client is
--   a parameter: whether a row is accepted, and whether a flush delivers the buffer.
-- * SystemInfo, SystemInfo/*: gatherSystemInfo of src/xbatd/src/helper.cpp, and what main of
--   src/xbatd/src/main.cpp hashes of it. The JSON library is the interface Document.
-- * Daemon, Daemon/*: measure, watchdog and sigHandler of src/xbatd/src/main.cpp, init of
--   src/xbatd/src/threadhelper.cpp and the destructor of statusInfo as the threads of one job.
--   State says where measure and the watchdog stand; daemon_step is one thread's next step, and
--   run takes a schedule of them.
-- * Pipeline, Pipeline/*: the queue and the writer as one sequence of operations.
-- * Tests, Tests/*: runs, and the theorems at concrete inputs.
--
-- Bounds and fuel: a time point is a natural number of nanoseconds, an interval one of
-- milliseconds, a heartbeat one of seconds. Counters of type uint64_t wrap at 2^64, bufferSize,
-- the sizes of the caches and the sizes of the benchmarks at 2^32, as written out; arithmetic on
-- int64_t that overflows is undefined behaviour and a fault. splitStr gets the length of the
-- text plus one as fuel, and sleepMillisecondsAndCheck the number of whole seconds plus one:
-- with a delimiter that is not empty every step passes over at least one byte, and every sleep
-- but the last takes a second.
--
-- Not modelled: sanitizeForILP, parseTime and round of src/xbatd/src/helper.cpp, whose results
-- are arguments where they are used; the rotation of the file of src/xbatd/src/CLogging.cpp; the
-- records that the other parts log; the files under src/xbatd/src that are copies of other
-- projects (nlohmann, clipp.h); the content of a double. The interleaving of threads is modelled
-- for the queue, for the calls of log and for the threads of a job (Daemon), where the
-- watchdog's stop and terminated go over the list in one step; elsewhere a flag that another
-- thread sets is an argument with a value for each of its tests. Data races on the collectors'
-- own plain fields are not modelled.
pub mod Base
pub mod Queue
pub mod Collector
pub mod Watchdog
pub mod Text
pub mod Files
pub mod Config
pub mod Cpu
pub mod Interconnect
pub mod Memory
pub mod Measure
pub mod Power
pub mod Disk
pub mod Gpu
pub mod Likwid
pub mod Tasks
pub mod Startup
pub mod Topology
pub mod Rest
pub mod Bench
pub mod SystemInfo
pub mod Logging
pub mod Main
pub mod Daemon
pub mod Writer
pub mod Pipeline
pub mod Tests
