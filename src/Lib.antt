-- ===== src/Lib.antt =====
-- PDXearch, an approximate nearest neighbour index for DuckDB. An index is a list
-- of clusters, each stored in the PDX layout (src/include/index/pdxearch_index_utils.hpp). A search
-- visits the clusters in the order of the distance of their centroids. For each it scans some
-- dimensions of all embeddings (`Warmup`), goes on with those that the top of the candidate heap does
-- not prune (`Prune`), and merges what is left into the heap (`MergeIntoHeap`); the result is read off
-- the heap (`BuildResultSetFromHeap`). An optimizer finds queries for the nearest rows of a table and
-- lets them scan its index.
--
-- The files and the code that they model:
-- Dimensions    src/include/pdxearch/common.hpp: the constants and `GetPDXDimensionSplit`.
-- Layout        src/include/index/pdxearch_index_utils.hpp: `StoreClusterEmbeddings`.
-- Computers     src/include/pdxearch/distance_computers/scalar_computers.hpp.
-- Kernel/Heap   src/include/pdxearch/common.hpp and pdxearch.hpp: the heap, `MergeIntoHeap` and
--               `BuildResultSetFromHeap`.
-- Kernel/Positions  src/include/pdxearch/pdxearch.hpp: the distance and position buffers.
-- Kernel/Scan   src/include/pdxearch/pdxearch.hpp and pruners/adsampling.hpp:
--               `GetPruningThreshold`, `Warmup` and `Prune`.
-- Kernel/Search src/include/pdxearch/pdxearch.hpp and db_mock/predicate_evaluator.hpp: the offsets of
--               the constructor, `Search` and `FilteredSearch`.
-- Kernel/Global src/include/pdxearch/pdxearch.hpp: the order of the clusters, `Start`,
--               `SearchGlobal`, and in Filtered `FilteredStart` and `FilteredSearchGlobal`.
-- Kernel/Store  joins Layout and Computers: what is stored is what the kernels read.
-- KMeans        src/include/index/pdxearch_kmeans.hpp: `ComputeKMeans`.
-- Quantizer     src/include/pdxearch/quantizers/scalar.hpp: the quantization of embeddings.
-- Wrapper       src/include/index/pdxearch_wrapper.hpp: the maps between rows and positions in
--               clusters, the predicate evaluator, in SetUp the set-up of an index from embeddings,
--               in Global the search of the index of a whole table, and in RowGroup that of the index
--               of a row group.
-- Preprocess    src/include/index/pdxearch_index_utils.hpp: `EmbeddingPreprocessor`.
-- Creating      src/index/create/pdxearch_index_create.cpp and pdxearch_index_global_create.cpp: the
--               operators that create an index.
-- GlobalScan    src/index/search/pdxearch_index_global_scan.cpp and
--               pdxearch_index_global_filtered_scan_physical.cpp: the scans of the global version.
-- FilteredScan  src/index/search/pdxearch_index_filtered_scan_physical.cpp: the operator that runs the
--               filtered search of each row group, repeats it and emits the results.
-- ParallelScan  src/index/search/pdxearch_index_scan_physical.cpp: the operator that searches all row
--               groups in tasks and emits the result, as a step relation on its state.
-- Expression    the expressions, values and types of DuckDB as far as src/index reads them.
-- Blob          src/include/index/pdxearch_blob_codec.hpp and
--               src/index/pdxearch_blob_functions.cpp: vectors as blobs, and distances to them.
-- Index         src/index/pdxearch_index.cpp, src/include/index/pdxearch_index.hpp and
--               src/index/create/pdxearch_index_create_plan.cpp: the options of an index, its
--               constructor, and what the optimizer asks it.
-- Optimizer     src/index/search/pdxearch_scan_optimizer.cpp: the search for the nearest rows in a
--               query plan, and the scan of an index that replaces it.
-- Tests         each theorem at a concrete input.
--
-- A buffer is a function of the index; a loop over it is `for_up`. The distances of U8 are
-- `uint32_t` with their wrap-around written out. The kernel is modelled at U8, the default
-- quantization. Floats, their comparison and their conversion are a parameter (Kernel/Float), the
-- assignment of matrices of Eigen is one with its laws (Layout/Assign), and so are the sorting of
-- the standard library (Kernel/Global), the library for k-means (KMeans) and the matrix product of
-- BLAS (Preprocess); each has a concrete instance. What other threads do to the shared heap shows
-- in a scan only where it reads the heap's top, so each reading is an input; what they offer to it
-- before a searcher merges is an input of each iteration (`Encounter`). Row ids and limits become
-- `uint32_t` where the source stores or passes them as one: the indices of a cluster and the limit
-- of a heap are written modulo 2 ^ 32.
-- The loops of `Prune` run on fuel: a round covers 64 dimensions, so a 64th of the dimensions and
-- two is enough. The loop of `Warmup` recurses over the table of fetching sizes, whose sum is more
-- than the greatest number of dimensions. The iterations of the filtered scan run on the maximum
-- number of iterations as fuel, over one iteration on all row groups as a parameter, the emissions
-- on the number of row ids and one, and the loop of `GlobalScan` on the size of a vector and one.
-- The recursion of the optimizer runs on the depth of the plan.
-- What the index and the optimizer ask DuckDB is a parameter (`DuckDb` of Expression), with its
-- documented behaviour as hypotheses where a theorem needs it. Exceptions are values of `Result`.
--
-- Not modelled: the SIMD distance computers, the product with the rotation matrix and the ratios of
-- ADSampling, the sizes in memory, the filtered search of a row group in the wrapper, the storage columns
-- that a scan fetches, persistence, which is not implemented, and the registration with DuckDB.
pub mod Prelude
pub mod Dimensions
pub mod Layout
pub mod Computers
pub mod Kernel
pub mod Expression
pub mod Blob
pub mod Wrapper
pub mod KMeans
pub mod Quantizer
pub mod Preprocess
pub mod Creating
pub mod GlobalScan
pub mod Index
pub mod FilteredScan
pub mod ParallelScan
pub mod Optimizer
pub mod Tests
