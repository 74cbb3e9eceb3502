-- ===== src/Lib.antt =====
-- pycachesim, a simulator of memory caches: a model of its C implementation and what holds of it.
--
-- The program keeps a hierarchy of caches. A cache has sets of ways; each way has an entry: a line
-- number, a dirty bit and an invalid bit. A load or a store of a range of addresses goes over the lines
-- of the range, counts hits and misses, calls the caches that the cache is linked to (load_from,
-- store_to, victims_to) and replaces entries by one of four policies. Python reaches this through an
-- extension type, a C program through the functions of cachesim/backend.h.
--
-- The files, each with its child modules, and the code that they model:
--   Base       tests, C arrays as lists, and results that may be faults (no code)
--   Bits       the macros BITMASK to BITNSLOTS of cachesim/backend.h
--   Numbers    log2_uint and isPowerOfTwo of cachesim/backend.c
--   Cache      the structs of cachesim/backend.h; Cache__get_cacheline_id to Cache__get_location of
--              cachesim/backend.c (Range, Search)
--   CString    texts as lists of bytes, and the functions of the C library for strings that the reading of
--              a file calls (no code)
--   Replace    the part of Cache__inject up to the new entry, and the reordering of Cache__load: Shape
--              has what holds of a cache between two calls, Queue the queue that a set stands for, Packed
--              the lines that it holds
--   Hierarchy  Cache__inject, Cache__load and Cache__store of cachesim/backend.c. Local and Steps are
--              the changes that they make, as relations, and what every sequence of them keeps; Dispose,
--              Inject, Load, Loads and Store go through the functions; Safety ties the calls
--              together; Homes, Order, Tally, Hits and Absorbed say what is cached and counted; Reference
--              is the textbook cache of FIFO and LRU, Tracking sets it beside the loads, and Inclusion
--              compares two of them
--   Api        the methods Cache_load to Cache_mark_all_invalid and Cache_cached_get of
--              cachesim/backend.c; Replay sets Cache_iterload beside the textbook cache,
--              Larger compares two sizes
--   Init       Cache_init of cachesim/backend.c
--   Settings   the settings of a cache in get_cacheSim_from_file of cachesim/backend.c, and their checks
--              (Reasons: what the reading may result in; Checks: that it does)
--   Lines      the loop of get_cacheSim_from_file over the tokens of a line (Endless: when it ends;
--              Printed and ReadBack: lines of printed settings)
--   Files      get_cacheSim_from_file as a whole, from the text of a file to linked caches (Whole: files
--              of printed settings; Sound, Forward and Ready: the hierarchy that results)
--   Linking    the end of get_cacheSim_from_file of cachesim/backend.c: linking by name, first level
--   Walks      printStats and dealloc_cacheSim of cachesim/backend.c, along the links
--   Pin        the Pin tool pintool/cachesim_itf.cpp: ImageLoad (Search, Markers), and what is called
--              during the run of a program (Runs, Counting)
--   Kernels    the benchmarks load.c, store.c, update.c, copy.c and 1d-3pt.c of validation/kernels (Frame:
--              what they share; Stores: what store.c leaves; Loops: their bounds), and those with two
--              sizes, matvec.c, transmatvec.c and 2d-5pt.c (Products, with Bounds and Vectors), or
--              three, 3d-7pt.c and 3d-r3-11pt.c (Cubes)
--   Tests      small caches, on which each result is used
--
-- A function keeps the name of the C function without the prefix Cache; a loop is a function on the
-- number of rounds left. The state is the record Sim: all cache objects in a list, and the results of
-- rand() as a stream. A pointer to a cache is an index into the list, NULL is none. A read or a
-- write outside an array, the use of a NULL bit field and a division by zero are faults, so a theorem that
-- a call returns says that none of them happens.
--
-- Calls between caches: each function takes the functions that it calls on other caches as a record
-- Ops; ops n ties them together for calls of depth n. In a valid hierarchy the links of a cache lead to
-- caches behind it in the list (IsLinked), so the number of caches is fuel enough; that the program
-- needs such an order is what its recursion asks for, and the code does not check it. log2_uint
-- has 64 rounds for the 64 bits of its argument. The loop over the tokens of a line has a pass for each
-- byte of the line; where the program does not end it is out of fuel, and Lines.Endless compares the two.
-- A file is cut into lines with a call of fgets for each byte at most. The loop of MRU has one round, since its test
-- fails at once.
--
-- A cache in shape (HasShape) has at least one set and one way, a line size that is a power of two
-- and an entry for each way; if it combines writes, it writes back and has one bit for each byte of a
-- line, which are the settings under which the bits that the code touches exist.
--
-- Not modelled: addresses, lengths and settings that are negative, and the overflow of long and long
-- long; output by verbosity and to log files; reference counts, the tables and the module object of the
-- extension, and how the interpreter parses arguments; failing allocation, and an array of as many caches
-- as a file announces that does not fit on the stack; Pin itself: the order in which it makes the calls that
-- are inserted at one instruction is the order of the events of a run, and the names of symbols are
-- undecorated by a parameter; the Python front end cachesim/cache.py; the output and
-- the markers of the benchmarks, and sizes below 0 of those with more than one size.
pub mod Base
pub mod Bits
pub mod Numbers
pub mod CString
pub mod Cache
pub mod Replace
pub mod Hierarchy
pub mod Api
pub mod Init
pub mod Settings
pub mod Walks
pub mod Lines
pub mod Files
pub mod Pin
pub mod Kernels
pub mod Linking
pub mod Tests
