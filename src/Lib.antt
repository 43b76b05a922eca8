-- ===== src/Lib.antt =====
-- The labs of this repository: a text conference of one server and many clients
-- (Text_Conferencing_Lab), and a file transfer in three parts (File_Transfer_Lab_Part_I to Part_III).
--
-- The parts and the files that model them:
--   * Base: Boolean tests, lists, C strings as lists of bytes, decimal numbers as `sprintf` and
--     `atoi` treat them, and the loop that copies up to a colon.
--   * Message: Text_Conferencing_Lab/message. `Message` is `message_t`; fill_message,
--     message_to_string, string_to_message and receive_message keep their names, and `frame` is the
--     buffer that fill_and_send_message hands to `send`.
--   * Store: the globals of Text_Conferencing_Lab/server/server.c with the table of users of user.h
--     as one record `Server`, and a monad of runs that return a value or stop: at a null pointer, at
--     an access outside of an array, at a read of what was never written, or at a mutex that nobody
--     will release.
--   * Database: server/user.c. A `user_t*` is an index into the array; the mutex is an argument.
--     Database.Removal is remove_user_by_name_in_database, which nothing calls.
--   * Server: server/server.c. Login, Session and Admin hold the functions that serve a request,
--     under their names in C; Handler holds connection_handler, one round of its loop at a time, each
--     branch of its chain of tests a function; Startup holds set_up_database. Main is `main`, up to
--     its loop over connections, and that loop; Shutdown is KILL_HANDLER, the end of `main`, and
--     remove_all_users_in_database of user.c. Invariant says what holds between two requests, and
--     Conference is the abstract view of the table, with its moves. Reachable puts whole requests in
--     any order, and Wire comes to them from the bytes on a connection; Threads interleaves them inside
--     server_side_user_exit too.
--   * Client: client/client.c. `Client` is its globals and what was sent; `Network` is what a
--     connection meets; Commands is the body of the loop in main after a line was read, and Main that
--     loop; Replies is one round of server_message_handler, cut where it waits in `recv`.
--   * Transfer: the three labs on files. For File_Transfer_Lab_Part_III, Packet and Ack are its
--     packets folder, whose packet.c is also that of Part II; Disk is what `open` and `write` do to
--     the files; FileServer is the loop of server/server.c, one datagram at a time; Deliver is
--     deliver/deliver.c, with its estimate of the round trip time in Deliver/Timer; Link puts the two
--     together. Plain, with Plain/Deliver and Plain/Link, is the same for File_Transfer_Lab_Part_II,
--     where nothing is lost and a file is cut into fragments by the definitions of Deliver. Handshake
--     is File_Transfer_Lab_Part_I.
--
-- How the parts meet: a client's bytes are what `frame` or `text_line` makes; the server parses them
-- with string_to_message, `dispatch` picks the function, that function takes user_list_mutex, reads
-- and writes the table, and sends messages to the sockets of users, which are appended to `sent`.
-- In the file transfer, `exchange` is a sendto of deliver.c, what server.c does with the datagram, and
-- the recvfrom of deliver.c; `run` repeats it, with one draw of the server's `rand` for each.
--
-- Bounds: the sizes of arrays are those of the code (17 bytes for names, 20 for the password of a user
-- but 17 where the database file is read, 46, 1000, 1200 and 1500 bytes; 16 users), and a copy that does
-- not fit is an overflow, not a truncation. Numbers on the wire are those within `int`. A loop
-- runs over a list or over a number of bytes that is known, so no fuel is needed,
-- save for the digits of a number, of which ten are enough, and for the loop of set_up_database, which
-- fscanf may keep at one place of the file: it needs one round more than there are entries.
--
-- A round of a connection is one step, and Server.Reachable puts such steps in any order. Most
-- functions hold user_list_mutex from start to end, and then nothing else happens in between.
-- server_side_user_exit does not: it reads the table without the mutex, calls
-- server_side_session_leave, which takes it, and takes it again. A `Turn` of Server.Threads is one of
-- its parts, so that other threads run between them. verify_login and user_login are one turn there,
-- and Server.Threads.LoginRace is about two threads that do not keep to that. The listings, and the
-- search of the branch MESSAGE, are one step, although a thread that changes the table may run
-- beside them. In the client, a command is one step, and a round of the receiving thread is two: its test,
-- and what it does with the message, between which the user may type commands (Client.LateAnswer).
-- Client.History puts commands, signals and messages that come while the connection is up in any
-- order. A line that a user types holds no NUL.
--
-- The channel of the file transfer keeps the order of datagrams and neither loses, repeats nor changes
-- one; what is lost is what the server throws away by its draw of `rand`. The sender's recvfrom gives up
-- only where nothing is on its way. What an early timeout does to the server is stated on its own.
--
-- Parameters: which names `open` succeeds for in the file transfer, the draws of `rand`, what
-- `getpeername` and `inet_ntop` say of a socket (`Peer`), what `recv` gives, the addresses that
-- `getaddrinfo` finds with the success of `socket`, `setsockopt`, `bind`, `listen` and `connect` at
-- each, what `accept` gives, whether a thread comes to its end, what `getline` and `clock` give, and
-- the arithmetic of C on doubles (`Double`), of which only what IEEE 754 says of zero is used
-- (`IsIeee`).
--
-- Not modelled: what the system does behind these answers, output to the terminal (with the two print
-- functions of user.c), the release of memory at the end of the client, a client whose thread was
-- created but does not end when it is joined, and the creation of sockets in the file transfer.
pub mod Base
pub mod Message
pub mod Store
pub mod Database
pub mod Server
pub mod Client
pub mod Transfer
