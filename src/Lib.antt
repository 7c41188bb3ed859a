-- ===== src/Lib.antt =====
-- Hierarchical monitors: hardware and software events, collected at the objects of a machine's topology,
-- stored over a window of reads and reduced to a few samples.
--
-- The parts, and the files that model them:
--
-- * Growing arrays (src/harray.c, src/hmon/harray.h): HArray.antt has a function for each of the source's,
--   HArray/Sorted.antt those that take a comparison. A pointer is a number and NULL is 0. `cell` is the
--   whole block, so that a read past the length is seen; a write outside the block gives `none`. What they
--   do is stated on `contents`, the elements in order, for arrays that are valid (HArray/Inv.antt):
--   HArray/Refine (set, push, pop), HArray/Middle (insert, remove), HArray/Growth (the block that grows),
--   HArray/Lookup (find, duplicate, delete), HArray/Sorted/Insert.
-- * Monitors (src/hmonitor.c, src/hmon/hmonitor.h): Hmonitor.antt has the state, the reads and writes of
--   the ring, reset, read, reduce and output; Hmonitor/Lock.antt trylock, release, start and stop;
--   Hmonitor/Create.antt new_hmonitor. Hmonitor/Ring.antt has the invariant and the layout of the rows,
--   Ring/Read and Ring/History what reads leave, Ring/Failed reads that may fail, Hmonitor/Reset, Hmonitor/Reduce, Hmonitor/Lock/Owner and
--   Hmonitor/Create/Valid the other operations.
-- * Reductions (src/plugins/stat_default/stats.c): Stats.antt, with Stats/Columns, Stats/Extrema and
--   Stats/Variance. A monitor's `model` names one of them.
-- * The fake plugin (src/plugins/fake/fake_monitor.c): Fake.antt, and Fake/Events, the plugin as
--   monitors rely on it.
-- * Threads (src/synchronize.c): Synchronize.antt has the order of the monitors and the four calls that
--   each thread makes on a monitor; Synchronize/Exclusion runs the calls of several threads in any order.
--   Synchronize/Barrier is the step relation of hmon_update and the threads between the two barriers, with
--   the counter `uptodate`; Synchronize/Walk is hmon_update_location, which brings the calls of a thread to
--   the monitors of its objects; Synchronize/Registry holds the arrays of monitors, and what registering
--   and restricting do to them.
-- * Plugins (src/plugin.c): Plugin.antt has the two tables of loaded plugins, Plugin/Name their file names,
--   Plugin/Loaded loading and lookup.
-- * The hierarchical plugin (src/plugins/hierarchical/hierarchical_monitor.c): Hierarchical.antt has its
--   eventset of children monitors, over a store of shared monitors; Hierarchical/Read is about the store.
-- * The accumulating plugin (src/plugins/accumulate/accumulate_monitor.c): Accumulate.antt, over the same
--   store; Accumulate/Values and Accumulate/Sums are about what a read writes.
-- * Process information (src/plugins/proc/): Proc.antt has the counters of lproc.c and proc.h, their
--   differences and loads, Proc/Update what a scan of a file stores, Proc/Cast the casts to double,
--   Proc/Counters what differences give. Proc/Events and Proc/Eventset are proc_monitor.c: the events by
--   name, and the eventsets with their reads; Eventset/Valid and Eventset/Stale are about them.
-- * The PAPI plugin (src/plugins/papi/PAPI_monitor.c): Papi.antt, and Papi/Counts on what a read writes;
--   Papi/Listing is the list of the events that PAPI offers.
-- * The MAQAO plugin (src/plugins/maqao/maqao_monitor.c): Maqao.antt, and Maqao/Callsites on its call sites.
-- * The trace plugin (src/plugins/trace/): Trace.antt, with Trace/Fields on the fields that are selected
--   and Trace/Entries on what a read takes from the trace.
-- * The learning plugin (src/plugins/learning/): Learning.antt has the interface of GSL,
--   Learning/Features features.c, Learning/Kmean kmean.c and `clustering`, Learning/Regression linreg.c and
--   `lsq_fit`. Learning/Nearest and Learning/Clusters are about k-means.
-- * Periodic sampling (src/sampling.c): Sampling.antt, and Sampling/Period on the timers.
-- * The command hmon (src/main.c): CommandLine.antt has the options and how arguments are read,
--   CommandLine/Run the calls of `main`; CommandLine/Arguments and Run/Protocol are about them.
-- * Placement of processes (src/proc.c): Placement.antt, with Placement/Running and Placement/Allowed.
-- * Objects and bindings (src/hwloc_utils.c): Locations.antt, with Locations/Order and Locations/Binding;
--   Locations/Names has the names of objects, and reads them back.
--
-- Prelude.antt and its children hold what the parts share: tests on numbers, arrays as lists, integers, and
-- the interface of doubles. Tests.antt and its children run the definitions on concrete data.
--
-- Parameters. `double` is a type with its operations (`Floats`), with the laws of an order where a theorem
-- compares (`IsOrdered`, which leaves NaN out). The functions of a performance plugin are `PerfLib` and
-- `PerfPlugin`. `ReadsRows` is a library whose reads write a row, `KeepsSizes` one whose reads may also fail
-- and write what they want, and `CountsEvents` says that adding a name returns the number of events added,
-- which src/hmonitor.c relies on and src/plugins/performance_plugin.h does not say (0 on success);
-- the fake plugin is an instance. malloc, dlopen, dlsym and hwloc are functions that the definitions take,
-- and so are GSL (`Gsl`, `IsGsl`), MAQAO's library (`Counting`) and the calls of the system on
-- timers and processes (`System`, `World`). The laws of hwloc's bitmaps are `IsHwloc` and `IsBitmaps`. What
-- files of /proc and /sys hold is an argument too. bsearch and qsort are arguments of the functions that
-- call them.
--
-- Bounds. Lengths, indices and counters are `unsigned`, and wrap at 2^32 in the definitions. The loop that
-- doubles a block has 33 rounds of fuel: after 32 the size is 0 modulo 2^32 and stays so. The search of
-- harray_insert_sorted has as many rounds as the array has elements, and needs no more: its bounds get
-- closer in each. The loop of the trace plugin that doubles its array of fields has 32 rounds,
-- enough for each field below 2^30 since an `int` has 31 bits.
--
-- What a performance library does to other monitors (the hierarchical and the accumulating plugin read and
-- reset children, which may have children themselves) is the argument `nested` of the walk of the threads
-- and of the hierarchical plugin; Accumulate.antt takes children that change no other monitor. A call on a
-- monitor is one step: what happens inside hmonitor_stop or hmonitor_read when two threads are in them at
-- once is not modelled, and calls of hmonitor_trylock, which can take a monitor over
-- (Hmonitor/Lock/Owner), are not among those that Synchronize/Exclusion lets other threads make.
--
-- Not modelled: destruction and printed headers; the configuration grammar; the display, which draws on a
-- terminal or through lstopo.
pub mod Prelude
pub mod HArray
pub mod Hmonitor
pub mod Stats
pub mod Fake
pub mod Synchronize
mod Tests
pub mod Proc
pub mod Hierarchical
pub mod Plugin
pub mod Accumulate
pub mod Placement
pub mod Locations
pub mod Papi
pub mod CommandLine
pub mod Maqao
pub mod Learning
pub mod Trace
pub mod Sampling
