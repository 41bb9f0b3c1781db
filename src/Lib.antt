-- ===== src/Lib.antt =====
-- Models of the programs of an operating-systems course: the shell of hw1, the HTTP server of
-- hw2, the heap allocator of hw3, the key-value file system of hw4 with its test runner, and the
-- word count of hw0.
--
-- The programs do not call each other. Within one:
-- - hw4: FUSE calls the handlers of kvfs.c through `kvfs_oper`; they read and write the nodes in
--   memory, and flush, unlink and rename also the superblock file, which `kvfs_init` reads.
--   Kvfs.State has the state (hw4/kvfs.h) with `lookup`, Kvfs.Superblock the superblock
--   functions, Kvfs.Handlers the handlers, Kvfs.Table the table of them, Kvfs.Mount the `main` of
--   kvmount.c. Proofs: Kvfs.Find, Kvfs.Distinct (the nodes as a dictionary), Kvfs.Invariant,
--   Kvfs.ReadWrite, Kvfs.RoundTrip, Kvfs.Shift, Kvfs.Names, Kvfs.Doubled, Kvfs.Errors,
--   Kvfs.Good, Kvfs.Serving, Kvfs.Reaching. The view of a user is Kvfs.Model, two dictionaries,
--   one of them on the disk; Kvfs.Sessions has the calls and restarts of a process,
--   Kvfs.Represents what a state stands for, Kvfs.Refines the refinement, Kvfs.Fresh its start.
-- - hw3: `mm_malloc`, `mm_free`, `mm_realloc` of mm_alloc.c walk a doubly linked list of blocks
--   that `split_block`, `extend_heap` and `fusion` change. Alloc.State has the memory, Alloc.Ops
--   the functions, Alloc.Blocks the list as a predicate on the heap with the searches on it.
--   Proofs on the list: Alloc.Layout, Alloc.Splitting, Alloc.Serving, Alloc.Extending,
--   Alloc.Joining, Alloc.Settling, Alloc.Freeing, Alloc.Freed, Alloc.Releasing, Alloc.Refusals.
--   The view of a caller, who knows the blocks in use and their bytes: Alloc.Spots, Alloc.Live,
--   Alloc.Allocating, Alloc.Cases, Alloc.Serves (`mm_malloc`), Alloc.Frees (`mm_free`),
--   Alloc.Moving and Alloc.Realloc (`mm_realloc`), Alloc.Calls (any sequence of calls),
--   Alloc.Session (a program that writes to its memory, and what it knows of it) with
--   Alloc.Owning, Alloc.Agreeing, Alloc.Coming and Alloc.Keeping, Alloc.Shrinking (`mm_realloc`
--   to a smaller size). Alloc.Printing has the functions that print the list. Alloc.Harness has
--   the program of mm_test.c, and Alloc.Filling and Alloc.Client are about it.
-- - hw2: httpserver.c takes connections in `serve_forever`, and answers each by
--   `handle_files_request` or `handle_proxy_request`, over libhttp.c. Http.Request has
--   `http_request_parse`, Http.Response the response functions, Http.Files the files handler,
--   Http.Options the arguments of `main`, Http.Proxy the two loops, Http.Sockets what stands
--   around them. Proofs: Http.RequestLine, Http.Settings (the options), Http.Replies,
--   Http.Directories, Http.Relaying.
-- - hw1: shell.c reads a line, makes a process of it (parse.c takes it apart), and runs it by
--   process.c. Shell.Tokens has parse.c and `trimwhitespace`, Shell.Command `create_process`,
--   `resolve_path` and `lookup`, Shell.State and Shell.Jobs the process list and its functions,
--   Shell.Commands the built-in commands, Shell.Loop the main loop of `shell`, Shell.Input
--   `freadln` of io.c, Shell.Terminals `init_shell` and the child of `launch_process`. Proofs:
--   Shell.Tokenize, Shell.Trim, Shell.Redirecting, Shell.Copying and Shell.Parsing
--   (`create_process`), Shell.Reading, Shell.Linked, Shell.Adding, Shell.Rounds, Shell.Quiet,
--   Shell.Lines, Shell.Sessions (many lines), Shell.Launching and Shell.Foreground,
--   Shell.Waiting and Shell.Reaping (`wait`), Shell.Redirections (the child) and Shell.Startup.
-- - hw0: Warmup.Counting has `wc` of wc.c, Warmup.Printing the programs of map.c and main.c.
-- - hw4/tests: Suite.Running has the test runner of tester.h and the suite of kvfs_tests.c,
--   Suite.FsTests its test functions and `main`.
-- Base has the shared names, lists over the native numbers and byte strings. The modules named
-- Tests, ChildTests, WaitTests, FrontTests, ParsingTests, ClientTests and SessionTests hold runs
-- and the theorems at concrete inputs.
--
-- State is passed explicitly: a command takes the state and returns a value with the new state, a
-- fault (an access outside of an array, through NULL or to freed memory) or an exit. Strings are
-- lists of bytes without the NUL. Unsigned arithmetic keeps its wrap: 2 ^ 64 for `size_t`, 2 ^ 32
-- for the file counter. A loop over a linked list takes fuel; more fuel than nodes is enough, and
-- the theorems on the lists ask for no more, save that `mm_realloc` and sessions of calls need
-- one for the block to come; the loop that reads lines takes more fuel than there are bytes. All
-- other loops are structural.
--
-- Not modelled: libfuse (hw4/lib/fuse, another project's library), the text around the numbers
-- printed, the log that f_write appends to, print_the_fuckin_heap (hw3), does_block_exit,
-- http_fatal_error, the assertion macros, which no test expands, the modes of the terminal and
-- the signals sent. Results of system calls that a loop or a function depends on are given as
-- arguments. The writes of the superblock's file and of an HTTP response are taken to transfer
-- all their bytes, and of `struct stat` only the fields that the code assigns are kept. Only the
-- allocator of hw3 moves the break, and a header that a copy has overwritten is a fault to read,
-- whatever the bytes copied. How many bytes `malloc` really gives to the shell is a parameter.
-- Ports, the count of words and the numbers that `atoi` reads are taken to fit an `int`. The
-- arrays `fname` of kvfs.c, one byte short for the NUL, are no faults in the model.
pub mod Base
pub mod Alloc
pub mod Http
pub mod Kvfs
pub mod Shell
pub mod Warmup
pub mod Suite
