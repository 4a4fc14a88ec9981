-- ===== src/Lib.antt =====
-- moestream: a mixture-of-experts model runs in less memory than its experts need. A slab of slots
-- holds the weights of some experts per layer; before the expert layer of the graph runs, an
-- operation of the graph rewrites the ids of the experts that the router chose to the slots that
-- hold them, and reads the experts that are missing.
--
-- The parts and how they interact:
--
-- src/expert_cache.hpp, src/expert_cache.cpp (Cache): `ExpertCache`, which decides what expert has
-- which slot, by an S3-FIFO policy with quotas per layer. Cache/State has its types: a vector
-- whose length never changes is a function of its index, a deque is a list, and the stack of free
-- slots is a list with the top first. One function per method: `create` (the constructor) in
-- Cache/Create, `build_pinned` in Cache/Pin, `acquire`, `mark_resident` and `release` in
-- Cache/Acquire, `alloc_slot` in Cache/Alloc, `evict_one` in Cache/Evict, `end_step` and
-- `rebalance_quota` in Cache/Quota. A function that changes the cache returns the new one; the
-- loop over a queue in `evict_one` runs for as many rounds as the queue is long when its pass
-- begins, as in the source, so that no fuel is chosen there. Counters wrap at their width (64, 32,
-- 16 bits); the differences that the source takes in 32 bits are taken so. The doubles of the
-- quotas are a record of operations of which nothing is assumed (Cache/Doubles);
-- `std::partial_sort` is a parameter, of which one theorem assumes that it returns experts of the
-- model. Cache/Inv has the invariant, and Cache/History sequences of calls.
--
-- src/llama-moestream.cpp (Remap): `ms_remap_fn`, the operation of the graph, from the release of
-- the references that the layer's passes hold to the end of the loop over the ids (Remap/Call,
-- Remap/Ids), with the choice of the experts of a pass (Remap/Sweep), the word that carries layer
-- and pass (Remap/Pack) and the reuse-distance statistics (Remap/Mrc). Every layer has a cache of
-- its own there, made with one layer. The tensor of ids is the list of its entries in the order in
-- which the loop reads them. The reads of the missing experts are a list of pairs of expert and
-- slot; the effect that they are to have on the slots is the specification `filled` in
-- Remap/Ids/Step. Remap/Pending cuts that list into batches as the source does; its loop has as
-- much fuel as there are reads, each batch taking one. Remap/Jobs has the reads of one batch and
-- the copies from the staging buffer; that a read puts the weights of its expert at its
-- destination is taken for what `pread` does.
--
-- src/llama-moestream.cpp (Io): `do_read` and the loop over `pread` (Io/Read), where `pread` is a
-- function that says how many bytes the k-th call returns, an error and the end of the file
-- included. Where bytes are to arrive, the assumption is that the shard is a regular file of some
-- size that reads without error, so that a call for a range inside it returns at least one byte.
-- Further `run_reads_parallel` (Io/Pool), whose threads are a step relation over the shared
-- counter, so that every interleaving is a sequence of steps; `dense_read_range` (Io/Range); the
-- tuner of the number of threads (Io/Tuner), with the readings of the clock as arguments. The loop
-- over `pread` has as much fuel as there are bytes, of which each call that goes on takes one at
-- least.
--
-- src/llama-moestream.cpp (Prefill): the arenas that hold all experts of a layer. Prefill/State
-- has the globals, Prefill/Pass what a pass over the layers is timed by, Prefill/Load
-- `load_layer_arena`, Prefill/Ids the loop of `ms_pfload_fn` over the ids, Prefill/Graph
-- `ms_pfload_fn` with `pf_wait`, `pf_kick` and `prefill_exps`, Prefill/Request the time and the
-- tokens of the requests. The thread that loads the next layer is taken where it is joined; until
-- then it writes to its own arena, which is not that of the layer at work. What a read leaves at
-- its place is a parameter, so that it may fail; a load marks its experts all the same, as the
-- source does, and the theorems say which reads must succeed.
--
-- src/llama-moestream.cpp (Dense): the same for the weights of a dense model's layers: the places
-- in an arena (Dense/Layout, a part of `finalize_dense`), and `dense_load_layer`, `dn_wait`,
-- `dn_kick` and the arena part of `ms_dnload_fn` (Dense/Load), byte by byte over Io/Range. Where
-- the source goes on after a weight whose file is missing, so does the model.
--
-- src/llama-moestream.cpp (Loader): `parse_name` and `parse_dense_any` over lists of characters,
-- with `strtol` as C has it (Loader/Names); `register_slab`, `register_dense`, `dense_claim` and
-- `skip_load` (Loader/Tables) over maps as ordered lists (Loader/Map); `slab_slots` and `n_passes`
-- (Loader/Slots). What the metadata of the model, the device and the environment say are
-- arguments; warnings that are printed once are left out.
--
-- src/llama-moestream.cpp (Learned): `state_put`, which replaces a row of a file of the state
-- directory (Learned/Files). What the new file has after the writes, whose results the source does
-- not look at, is a parameter. A file is its bytes, and its rows are what `fgets` yields, with as
-- much fuel as there are bytes, of which each row takes one at least.
--
-- src/llama-moestream.cpp (Gguf): the scanners of the model's files. Gguf/Stream has a file as its
-- bytes, with the chain of reads that ends at the first failure; Gguf/Value the function that
-- passes over a value of the metadata, Gguf/Keys `gguf_kv_int` and its three callers, Gguf/Tensors
-- `gguf_bytes_per_slot`, and Gguf/Tensors/Scan `gguf_scan_streamable`. The recursion over arrays
-- in arrays has the size of the file and one as its fuel, which is enough for every value that was
-- written by the format, since an array takes a byte for each array that it stands in; a file that
-- steps back by a length of 2^63 or more can make the source recurse further. Paths,
-- `ggml_row_size` and `std::sort` are parameters; that a vector of many entries cannot be reserved
-- is left out. The results are the same for each call, as the source keeps them in static
-- variables.
--
-- src/llama-moestream.cpp (Finalize): `finalize`, for the experts: the opening of the shards and
-- the checks on them (Finalize/Shards), the threshold of the prefill path (Finalize/Threshold),
-- whose loop has the fuel of its 4095 steps, the arenas (Finalize/Arena), and all of it with the
-- head of `ms_remap_fn` that calls it (Finalize/Start), `ensure_zero_slot` included
-- (Finalize/Zero), where a copy that reads behind the end of its vector is an outcome of its own.
-- The files that `finalize_dense` opens belong to the dense path and are left out there. Whether
-- the host library allocates a buffer, knows its address and makes its tensors are arguments, as
-- is what `fstat` says of a file. The factor 1.15 is the quotient of 115 and 100.
--
-- research/spikes/s16_policy_compare/main.cpp (Policy): `sim_lru`, the simulation of
-- least-recently-used eviction that the cache is compared with (Policy/Lru), over a trace as the
-- list of the accesses in the order of its loops; the ratio that it returns is left out.
-- Policy/Lru/Stack relates its hits to the statistics of Remap/Mrc, where `accumulated` is the sum
-- that `mrc_report` makes its hit rates from.
--
-- Not modelled: the copy of the hidden state in `ms_dnload_fn`, the rows of the learned state, the
-- names of the shards, the decision on prefetching, and the reports but for these sums. The other
-- programs under research/ are measurements.
--
-- Tests has runs at concrete inputs, with natural numbers for the doubles.
pub mod Prelude
pub mod Cache
pub mod Io
pub mod Remap
pub mod Prefill
pub mod Dense
pub mod Loader
pub mod Learned
pub mod Gguf
pub mod Finalize
pub mod Policy
pub mod Tests
