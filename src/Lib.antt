-- ===== src/Lib.antt =====
-- A collection of small C programs, one per numbered folder, with one larger hook under project/.
-- The programs share no code and do not talk to each other, so each is a module tree of its own
-- over one module of shared helpers.
--
-- Parts, files and sources:
--   Common        helpers: tests and case splits (Tests), lists with native indices (Lists), C
--                 integers as bit patterns (Words), C strings (Strings), bitwise laws (Bits).
--   RingBuffer    14-module/main.c. `RingBuffer` is `struct ring_buffer`; `rb_open`, `rb_release`,
--                 `rb_read`, `rb_write`, `rb_ioctl`, `buffer_size_show`, `buffer_size_store` and
--                 `init_rb` are the functions of these names. Inv is the invariant, Refine the
--                 queue of bytes behind it, Device and Log what a client sees, Open the exclusive
--                 opening, Life `chardev_init` and `chardev_exit`.
--   Crc           9-crc32/main.c. `crc32_bitwise` and `main` with its loop over mapped chunks. Poly
--                 compares the byte step with polynomial division, Chunks the loop with the file.
--   AuthK8s       project/auth_k8s.c. `is_ip_in_cidr`, `auth_k8s_hook` and its static cache. Masks
--                 is about masks, Cidr about settings, Checks about verdicts, Search about the
--                 loops over pods and annotations, Decision about who is let in; Chain has
--                 `_PG_init` and the hook that is called next.
--   Daemon        8-daemon/main.c. `parseConfig` (Parse), `getFileSize` and `listenToUnixSocket`
--                 (Server), `startServer`, `main`.
--   Minesweeper   17-minesweeper/main.c. The field with `initGame`, `revealCell`, `revealAllMines`,
--                 `checkWin`; Game has `addScore` and the loop of `main`, one frame a step. Cells,
--                 Reveal and Flood are about `revealCell`, SameCells and Mines about `initGame`,
--                 Game/Scores about the table, Game/Field, Game/Play, Game/Names and Game/Frames
--                 about the invariant. Game/Screen has what a frame draws, as a list of calls;
--                 Screen/Cover is about what that tells, Screen/Aim about clicks on it,
--                 Screen/Table about the table of scores.
--   Cube          16-cube/main.c as the calls that it makes. Faces says what a cube is, Frames
--                 reads the matrices off the calls, Angle is about the `float` that is added to,
--                 Upload about the picture.
--   LinkedList    3-asm/main.c on an explicit heap, with `malloc` as a parameter. Chains is about
--                 lists on the heap, Filter about `f`, Program about `main`.
--   LogStats      10-threads/main.c. `scan_file`, `merge_maps`, `update_scan_report` and the stack
--                 of files; Threads cuts `thread_func` into turns and interleaves them,
--                 Threads/Turns is about one turn, Threads/Conserve about the totals, Threads/Order
--                 about the end of the threads and about merging without memory. Report has
--                 `init_scan_report`, `add_files_to_scan` and `process_scan_report`, Report/TopTen
--                 is about what is printed, Report/Program has `main`. The hash map is a record of
--                 operations (`HashMap`) with laws (Sums), of which AssocMap is an instance.
--   Logger        7-logger/logger/logger.c. `get_current_time`, `print_stack_trace`, the four log
--                 functions, and threads that log to one file; Records is about the file, Program
--                 has `create_logger`, `terminate_logger` and 7-logger/main.c.
--   TelnetClient  11-client/main.c. `string_has_substring` (Search), the collecting and printing of
--                 the answer (Session), `main`.
--   ColumnStats   15-db/main.c. `run_postgres` and `run_sqlite` as the calls they make; Resources
--                 is about what is taken and given back, and about what is printed.
--   DirectoryTree 6-oop/main.c. `list_recursively`, `build_tree`, `app_activate_cb`; Rows compares
--                 the rows with the tree of the directory; Calls has what `list_recursively` takes
--                 and gives back, Calls/References and Calls/Errors are about that.
--   Weather       2-weather/main.c. `cb`, `print_current_weather_from_json`, `get_weather`, `main`;
--                 the JSON library is a record of operations. Response is about the memory of the
--                 answer, Hours about what is printed.
--   RarJpg        1-rarjpeg/main.c. `checkIfRarJpg`, `printAllFilenames`, `main`. Search is about
--                 the end record of an archive, Listing about its central directory.
--   HttpServer    12-server/main.c. The request handling of `worker_thread`, its loop over events,
--                 `signal_handler` and `main`. Path is about the files it opens, Request about what
--                 it reads, Framing about its responses, Worker about the event loop, Startup about
--                 `main`, Shutdown about the end of the workers.
--
-- State is passed explicitly: a function takes the state its C counterpart reads and returns the
-- one it leaves. What the system answers (a failing call, a signal, the bytes of a file, a list of
-- pods) is an argument, so a theorem for all arguments holds for every behaviour of the system. An
-- `int` is its bit pattern below 2 ^ 32, a `size_t` below 2 ^ 64, a text a list of character codes
-- without its zero. A write beyond an array is undefined in C: it is an outcome of its own, or
-- stated.
--
-- Bounds: the functions of 3-asm/main.c run on one round more than there are elements; `revealCell`
-- may nest 101 calls, one more than the cells of the field, which is enough since each nested call
-- has revealed a cell; the loop of 9-crc32/main.c runs on fuel, one more than the bytes of the
-- file, which a theorem shows to be enough since a round takes at least one byte; the listing of
-- 1-rarjpeg/main.c takes one round more than there are headers; a `float` of 16-cube/main.c is
-- rounded as numbers below 2 ^ 27 halves are, and a theorem keeps it below; a transfer of
-- 14-module/main.c is cut by the kernel at MAX_RW_COUNT, below 2 ^ 31; sizes of files are printed
-- with at most 19 digits, which an `off_t` has; a loop that never ends (the clients of
-- 8-daemon/main.c) runs over the part of its input that an execution has seen so far. All other
-- loops are structural.
--
-- Not modelled: the sounds and the window of 17-minesweeper and the window of 6-oop, which are
-- calls of raylib and GTK that read no state; the frees at the end of 10-threads/main.c;
-- 10-threads/hashmap.h and 16-cube/stb_image.h, which are other projects' code; the texts of
-- messages about failures; Makefiles, the Dockerfile and assets.
pub mod Common
pub mod RingBuffer
pub mod Crc
pub mod AuthK8s
pub mod Daemon
pub mod HttpServer
pub mod RarJpg
pub mod Minesweeper
pub mod LinkedList
pub mod Logger
pub mod TelnetClient
pub mod ColumnStats
pub mod DirectoryTree
pub mod Weather
pub mod Cube
pub mod LogStats
