-- ===== src/Lib.antt =====
-- es3 copies trees of files between a local disk and a store of keys in buckets. This library models
-- the parts that decide what is done: which files are taken in, what is scheduled, how files are cut
-- and put together, and how the scheduler's threads share the work.
--
-- The parts, and the files of the repository that they model:
-- - Prelude: numbers, tests, lists, byte strings, string-keyed maps (Prelude/Dict), and exceptions as
--   values (Prelude/Failures, from es3/errors.h).
-- - Base64: es3/base64.cpp, used for signatures and checksums.
-- - Glob: es3/pattern_match.hpp. Glob/Meaning gives the meaning of a pattern as a relation;
--   `pattern_match_impl` runs on fuel, one more than the pattern's length, and Glob/Fuel shows that
--   it is enough.
-- - S3Path: the remote names of es3/connection.h, and `parse_path` and `extract_leaf` of
--   es3/connection.cpp.
-- - Mimes: es3/mimes.cpp, the table of media types row by row in five files.
-- - Listing: `list_files_shallow` of es3/connection.cpp, which collects the pages of a listing. It
--   runs on fuel; the theorem in Listing/Pages says that one round more than there are entries is
--   enough.
-- - Sync: es3/sync.cpp. Tree has the trees of both sides, Local `check_entry` and `build_local_dir`,
--   Filter `check_included`, Merge `merge_to_left`, Delete `delete_possibly_recursive`, Upload
--   `process_upload`, Download `process_downloads`, and Schedule `create_schedule`, which puts them
--   together. The tasks that these schedule are a list. An exception ends the run: the result is then
--   a failure, and the tasks that were scheduled before it are not modelled. The walk of the remote
--   directories in Schedule has the depth of the tree as its fuel.
-- - Commands: es3/commands.cpp over a record of the calls that the commands make. Rounds has
--   `do_rsync` and `do_rm` with their three rounds, Usage `do_du`, Ls `do_ls`, Small the others.
-- - Program: es3/main.cpp. Tuned has the agenda that the options give, Codes the exit codes.
-- - Metadata: the headers that es3/uploader.cpp sends with a file, and how es3/connection.cpp reads
--   them.
-- - Agenda: es3/agenda.h and es3/agenda.cpp. Waiting is the queue by segments and class; Agenda.antt
--   has one function for each block under the lock; System makes a step relation of them, in which
--   threads interleave in any order; Retry is the loop around a task, of at most ten rounds.
-- - Transfer: es3/uploader.cpp, es3/downloader.cpp and es3/compressor.cpp. Plan cuts files into parts,
--   blocks and pumps; Pump reads a pump's segments from the pieces of a file; Finish has the counters
--   by which the last part ends a transfer; Uploader is the task `file_uploader` with
--   `should_compress`. `pumps_from` runs on fuel, and the theorems say how much
--   is enough; the fuel of `read_loop` is the number of bytes that are still wanted.
-- - Requests: `checked` and `check_for_errors` of es3/connection.cpp; Requests/Buffers has the buffers
--   of uploads and downloads.
-- - Pool: the handles that es3/context.cpp lends.
-- - Common: `trim` and `tobinhex` of es3/common.cpp.
--
-- How they interact: the program makes an agenda of its options and calls a command; the command makes
-- a synchronizer, which lists both sides, filters names by the matcher and schedules tasks; the agenda
-- runs them; an upload's task cuts the file by the plan, its pumps send parts, and the last part
-- completes the upload. Program/Tuned joins the options to the plan and the pumps of an upload, and
-- Sync/Schedule the listings, the local tree, the merge and the schedules. Numbers are natural
-- numbers: sizes stay far below the 64 bits of the source, and a subtraction is written where the
-- source has made sure that it does not wrap around; the totals of `du` and exit codes are written
-- with their wrap-around. A `char` is signed, as on x86.
--
-- Parameters: the system calls `read`, `mkdir` and the joining of paths, the files on the disk, the
-- parsed options, the printing and reading of numbers, and the replies of the service. Not modelled:
-- curl, OpenSSL, TinyXML, zlib and Boost, which the source calls; output, clocks and logging; the
-- publication tasks of es3/sync.cpp, the signing of requests, and the bodies of the tasks for files
-- in es3/downloader.cpp and es3/compressor.cpp around the plans.
pub mod Prelude
pub mod Base64
pub mod Common
pub mod Requests
pub mod Pool
pub mod Glob
pub mod Mimes
pub mod S3Path
pub mod Sync
pub mod Listing
pub mod Commands
pub mod Program
pub mod Metadata
pub mod Agenda
pub mod Transfer
