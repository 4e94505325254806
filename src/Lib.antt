-- ===== src/Lib.antt =====
-- Models of the core of Parthenon, the framework for block-structured adaptive mesh refinement, and proofs
-- about them. A text is a list of bytes (`codes` gives that of a literal), and a call
-- that ends the program (PARTHENON_FAIL, PARTHENON_REQUIRE, an exception) is an `err`. The wrap-around of
-- `int` is written out where indices, offsets and gids go through it; levels are taken to be at most 30,
-- so that the shift of 1 by a level fits. The checks of debug builds are left out.
--
-- How the parts interact. The input file gives ParameterInput, from which everything else is built. The
-- mesh is a forest of trees of blocks, each named by a LogicalLocation; trees see one another through
-- coordinate transformations. Blocks are refined and derefined in the trees, numbered, and assigned to
-- ranks; neighbouring blocks exchange data through one CommBuffer per boundary, masked by the ownership of
-- the shared elements; and the tasks that do so run under a graph of dependencies. What variables there are
-- is what packages declare, each with its metadata; the packages are resolved into one state, of which a block
-- has the variables.
--
-- Which file models what:
--   Base: tests, lists, fallible results, integers with shifts and division as C++ has them, byte strings
--     with find_first_of and its like. Nothing in it is code of the repository.
--   Parameters: src/parameter_input.hpp and src/parameter_input.cpp. Store has the lists of InputBlock and
--     InputLine with FindOrAddBlock, AddParameter, GetPtrToBlock, GetPtrToLine and the lookups; Line has
--     ParseLine and a line of ParameterDump; Stream has LoadFromStream (`load_line` is one turn of its loop)
--     and ParameterDump; CommandLine has ModifyFromCmdline; Values has the Get, Set, GetOrAdd and
--     CheckRequired functions over `Streams`, the conversions of the C++ library; Vectors has GetVector and
--     GetOrAddVector, with `trim` of src/utils/string_utils.cpp; the fuel of `fields` is the length of the
--     text, from which each turn takes a comma. The linked lists are lists, a pointer to a block is its
--     position. ParameterDump gives the bytes that it writes, with the lengths of a block on `std::size_t` and
--     the most bytes of a string as a parameter; get_lines takes bytes apart as std::getline does. The proofs
--     are in ParseDump, Lookup, Writable, Reload, ReadBack, Sound, SoundOps, Syntax and Vectors.
--   Comm: src/utils/communication_buffer.hpp. Buffer has the operations of CommBuffer; what MPI answers is
--     an argument of the operation, and the calls to it are logged. Invariant and Local have the proofs.
--   Location: src/mesh/forest/logical_location.hpp and .cpp in Defs; proofs in Parent and Neighbor.
--   Balance: Assign has AssignBlocks of src/mesh/mesh-amr_loadbalance.cpp, where the arithmetic of `double`
--     is the parameter `Costs`, of which no law is assumed; BlockList has UpdateBlockList.
--   Forest: LocMap has the maps of src/mesh/forest/tree.hpp; Transformation and its child Elements have
--     src/mesh/forest/logical_coordinate_transformation.hpp and .cpp; Tree has Refine, Derefine and the
--     gids of src/mesh/forest/tree.cpp, over the list of all trees, since a tree refines its neighbours;
--     Tree/Gid, Tree/Derefine and Tree/Fuel have the proofs.
--   Morton: src/utils/morton_number.hpp and src/utils/bit_hacks.hpp. Word has the numbers of 64 bits, as
--     functions of the position of a bit; Interleave has GetInterleaveConstant and InterleaveZeros, whose
--     template arguments are 3 and 21; Number has GetMortonBits and MortonNumber.
--   Ownership: src/mesh/forest/block_ownership.cpp. Determine has DetermineOwnership, with the order of
--     src/mesh/forest/logical_location.hpp; Mask has GetIndexRangeMaskFromOwnership; the proofs are in
--     Exclusive and Reading.
--   Swarm: Pool has the slots of src/interface/swarm.hpp and .cpp: construction, setPoolMax,
--     AddEmptyParticles and RemoveMarkedParticles. What Kokkos makes of a view that is resized is a
--     parameter; an `int` that overflows is an error. The proofs are in Sound, Remove, Take and Grow. Variables has Add and Remove.
--   Metadata: src/interface/metadata.hpp and .cpp. Flag has the enumeration, Bits the flags that an object has
--     set, Construct the constructor and IsValid, Collection the collections of flags with MatchFlags and
--     GetByFlag. The order of a `std::set` of flags and the refinement functions, but for their label, are left
--     out. An extent is an integer, and the product of the extents wraps. The proofs are in Same, Valid,
--     Defaults, Built, Admits, Reads, Again and Select.
--   Variables: Block has Add and GetVariablesByFlag of src/interface/meshblock_data.hpp and .cpp, with Add of
--     VarListWithKeys in src/interface/variable_pack.hpp; a variable is its unique number. The proof is in Listed.
--   Packages: src/interface/state_descriptor.hpp and .cpp. Tracker has VariableProvider, a record of
--     operations, and DependencyTracker over any such provider; Descriptor has the dense fields of a package,
--     FieldProvider and CreateResolvedStateDescriptor; Sparse has src/interface/sparse_pool.hpp and .cpp,
--     Names has GetVariableNames, with std::to_string as a parameter; Values has src/interface/params.hpp,
--     whose proofs are in Typed. Plan says which calls a list of variables asks for. A map is the list of its
--     entries in the order of a loop over it; the order in which the unordered map of overridable variables is
--     visited is a parameter. The proofs are in Noted, Resolved, Offers, Consistent, Fluxes, Sparse and
--     Listing.
--   Containers: Partition has src/utils/partition_stl_containers.hpp, with the sizes as `int`; Chunks has the
--     proofs.
--   Tasks: Task has TaskID and Task of src/tasks/tasks.hpp, with proofs in Limits. Build has the lists of a
--     region and AddTaskImpl, BuildGraph the graph built of them. All tasks stand in one store, `Edges` are
--     the dependents and the function of a task. Execute has the execution of a built graph on the pool of
--     src/tasks/thread_pool.hpp: one step is a turn of the caller or of the worker. Views, Region, Step and
--     Finish have the proofs on the execution, Edges, Built, Grown, Plain, Added, Appended and Fresh those on
--     the building.
--   Examples: the theorems at concrete inputs.
--
-- Fuel and bounds. Refine calls itself on neighbouring trees, each time for a block one level coarser; its
-- fuel is the depth of the calls, and level + 2 is enough. GetLeafGid goes one level finer with each call,
-- so its fuel is the number of levels of the tree. The loop of GetInterleaveConstant halves a shift that
-- starts at 192, so that 8 turns are enough. AddEmptyParticles doubles a pool that is not empty until it has
-- room, so the number of the new particles is enough turns. The fuel of Execute is the number of turns; each
-- either puts one first task on the queue or, in a region without iterations, completes one task.
--
-- Not modelled: the data of the variables and everything that computes with floating-point numbers or runs
-- in Kokkos; input and output of files; MPI itself; the copies of a CommBuffer that share its state; the
-- sorting of blocks; sublists of tasks, their global synchronisation and the locks of the thread pool (a turn
-- of the worker or of the caller is taken whole); the defragmentation and the sending of particles; sparse
-- pools in the resolution of packages, the swarms of packages; the caches of packs; the
-- drivers.
pub mod Base
pub mod Parameters
pub mod Comm
pub mod Location
pub mod Metadata
pub mod Balance
pub mod Forest
pub mod Morton
pub mod Swarm
pub mod Tasks
pub mod Variables
pub mod Packages
pub mod Containers
pub mod Ownership
pub mod Examples
