-- ===== src/Lib.antt =====
-- The diary: a server that keeps encrypted entries for its users, and a terminal client.
--
-- The program. A client connects to the server over the wire protocol of the submodule protocol/,
-- which authenticates it by its public key. The server forks a process per client and calls
-- `diary_handle` (server/client_handler.c), which registers an unknown user and then answers the
-- lines POST, GET, UPDATE, DELETE and QUIT by the operations of server/storage.c, each of which runs
-- one SQL statement on a SQLite database that all the processes share. The client
-- (client/main.c, client/net.c, client/ui.c) lists the entries, shows one, and edits one in an
-- editor that sends UPDATE or POST when it saves and keeps a backup file until a save succeeds.
--
-- The files.
-- Prelude: shared names, Boolean tests and lists on native numbers, the integers of C.
-- Libc: what the program uses of <string.h> and <stdlib.h>: strcmp and strncmp against zero, strchr,
--   strtok_r, snprintf, `%d`, atol and atoi, with the round trip of printing and reading a number,
--   and qsort.
-- Server/Sqlite: SQLite, a parameter. A database is a type with the contents of the two tables and
--   the outcome of each statement of storage.c; `IsSqlite` names the documented meaning of the
--   statements, any of which may fail, and `Works` says that none does. Server/Sqlite/Memory is a
--   database in memory that meets both.
-- Server/Storage: server/storage.c, a function per function, with the handle `db` in the state.
-- Server/Handler: server/client_handler.c. `diary_handle` is the function of that name,
--   `handle_greeting` and `handle_register` its first part, `command_loop` and `handle_line` its
--   loop, `handle_post`, `handle_get`, `handle_update` and `handle_delete` the branches, and
--   `collect_entry` the callback of GET. The lines received are a list, with the clock and the
--   allocator's answers beside each; the lines sent are the result.
-- Client/Net: client/net.c, a function per function. The wire protocol and the cryptography are the
--   parameter `Wire`; `Link` says what a connection does that is up and leads to the handler of
--   Server/Handler, where the handlers of other users may work on the database between two lines, and
--   the requests are proved against that handler. Tests/Busy is such a connection.
-- Client/Net/Journal: what the requests promise their caller, as a journal of readable entries with the
--   relation `Steps` of whole sequences of requests, each at its `Moment`: the clock and the sealing
--   that it meets; Client/Net/Journal/Rows takes the rows at the
--   server for a journal, Client/Net/Journal/Requests has one request and
--   Client/Net/Journal/Sequences any number; Client/Net/Journal/Kept is about one entry. It goes
--   through the client, the connection, the handler and the storage.
--   Client/Net/Journal/Apart keeps the identifiers of a journal apart, Client/Net/Journal/Full is about
--   users with more entries than a listing has, Client/Net/Journal/Grows about journals that lose no
--   entry.
-- Client/Net/Acknowledged: the requests on a connection that answers anything; Client/Net/Listing has
--   the listings.
-- Client/Net/Order: the order of the entries; Client/Net/Order/Unique is about the algorithm of qsort.
-- Client/Service: the calls of client/net.h that the screens make, an interface.
-- Client/Ui: the text functions and the editor of client/ui.c: `u8_char_len`, `get_vpos` and
--   `vpos_to_idx`, the backup files, and `screen_editor`, whose rounds (`editor_step`) take the key
--   read, the size of the terminal, the failures of fopen and realloc, and the bytes that fwrite
--   writes. Client/Ui/Viewer is
--   `screen_view`, whose position moves with the keys. Client/Ui/ListScreen is `screen_list`, which
--   calls the editor and the requests; its field `fault` records a read of entries[selected] that is
--   not in the array, after which nothing is said of the program; Client/Ui/ListScreen/Draw has the
--   rows that it draws.
--   Client/Ui/Editor/Stored and Client/Ui/Editor/Delivered run the editor over the requests and the
--   server, Client/Ui/ListScreen/Fetching and Client/Ui/ListScreen/Shows run the list. Client/Ui/Editor/Posts
--   counts the POSTs that are answered, on any connection, and Client/Ui/Editor/Once the entries at a
--   server.
-- Client/Ui/Draw: the loop of `screen_editor` and `screen_view` that draws the text, as the list of the
--   characters written with the places at which they start, and the place of the cursor; the cells that
--   a character takes on the terminal are a parameter where they matter. Client/Ui/Bars has
--   the texts of the headers and the status lines.
-- Server/Spec: what the handler promises a user, as a list of notes and what each request does to it,
--   with the relation `Run` of whole sessions; Server/Spec/Notes takes rows for notes, and
--   Server/Spec/Refines is the refinement by Server/Handler, for one session, and
--   Server/Spec/Interleaved for a user among others.
-- Server/Handler/Replies: the lines that may answer each request, as the indexed types `Turn`,
--   `Dialogue` and `Session`; Server/Handler/Replies/Commands and Server/Handler/Replies/Sessions are
--   about the command loop and the whole session, Server/Handler/Replies/Reading is about a reader
--   of the replies.
-- Server/Main and Server/Directories: server/main.c. `parse_args` is the loop over the arguments,
--   `main_options` and `start_server` are the steps behind it, `mkdirs` and `ensure_db_dir` the
--   functions of these names, over a file system as a parameter. The result of `main` records the
--   call of proto_serve, from which `diary_handle` is called for each client.
-- Client/Main and Client/Stdin: client/main.c. `read_options` is the loop over what getopt_long
--   returns, `post_stdin` the branch of --post, `read_stdin` and `parse_entry_at` the functions of
--   these names. The terminal interface is entered at `screen_list`.
-- Android/Crypto: android-client/app/src/main/cpp/diary_crypto.c, a function per function, over the
--   Java Native Interface and libsodium as parameters; `IsJni` and `IsLibsodium` name what is
--   documented of them. The state counts the buffers that are held.
-- Tests: runs of the models, and the theorems at concrete inputs.
--
-- Bounds and fuel. The loop that draws a text has its length as fuel, since each round takes a byte or
-- more. Printing recurses on the number, which a division by ten makes smaller.
-- `grow`, the loop that doubles the size of the editor's buffer, has the length of the text as
-- fuel, which is enough since every doubling of a size from 4096 on adds at least one. The loop
-- of `read_stdin` has one more than the length of the input, since each round but the last reads
-- a byte or more. A `long` has 64 bits and an `int` 32; identifiers are taken to an `int` as the
-- program does (`to_int`). Sizes of buffers in memory are taken to fit `size_t`, and rows and
-- columns of the screen to fit an `int`. `atol` saturates at the ends of `long`, as strtol does,
-- whose overflow the standard leaves open.
--
-- Not modelled. The submodules protocol/ and libsodium, which are not in the repository, and the Java
-- code of the Android application; lines and colours on the terminal, the widths of
-- characters there, and `ui_run`, which sets it up; messages on stderr; memory that is freed;
-- concurrency below a statement, which SQLite serialises.
pub mod Prelude
pub mod Libc
pub mod Server
pub mod Client
pub mod Android
pub mod Tests
