-- ===== src/Lib.antt =====
-- mysql_replication_c: a C library that follows the binary log of a MySQL server and calls functions
-- of its user for the rows, transactions and heartbeats it sees.
--
-- The parts and their files here:
-- * mysql_rpl_listener.cc, the C interface: Api. A handle is an optional listener, and each function
--   gives its return code.
-- * mysql_rpl_listener_2/mysql_rpl_listener_2.cc, the listener: Listener has the state (class
--   mysql_rpl_listener_2), Listener/Lifecycle its constructor, table_add, start_replication,
--   stop_replication and so on, Listener/Prepare prepare_replication, Listener/Thread the replication
--   thread (process_replication_thread_fnc), Listener/Process process_event, with Listener/Query for
--   QUERY_EVENT, Listener/Cache for the columns of a table and Listener/Deliver for the rows events.
--   Listener/Tables has the two lookups, Listener/Step what the parts share. Event has the events.
--   Listener/Session puts a whole use together: `perform` is a call of the user or a step of the
--   thread between two calls (it opens the stream, or goes through a round of its loop), `session`
--   any sequence of them. A fault of the thread ends the session, as it ends the program.
--   Report has the error record (repl_log_x_error_set, extract_filename_from_full_path),
--   Rows/Clear repl_log_x_rows_clear and Listener/Cleanup what is freed with a listener.
-- * example/C/rpl_test_2.c, the example client: Client has the functions that it gives to the
--   listener, Client/Script its thread for SQL scripts.
-- * rows_log_event_2/rows_log_event_2.cc, the rows: Rows/Loop is get_rows, Rows/Image is
--   get_one_row_values, Rows/Memory are repl_log_x_rows_add_row_mem and repl_log_x_rows_finish, and
--   Decode is log_event_get_value_2, with its column types in Decode/Numbers, Times, Strings, Blobs
--   and Json and its printing helpers in Decode/Bits.
-- * mysql_rpl_listener_row.h and mysql_rpl_listener_2/mysql_rpl_tbl_info.h, the structures: Row, Rows.
-- The thread gives each event to process_event, which gives a rows event of a listened table to
-- get_rows, which reads each row with get_one_row_values, which reads each column with
-- log_event_get_value_2. Listener/Spec says what the user may see of that, as a step relation.
--
-- Text and Block model the C library: snprintf with its formats, malloc, memset, strlen. A heap is a
-- function that tells whether a request is granted; the requests are numbered. A block holds its
-- capacity, so that a write behind it is a fault, and so is a read behind the end of the event. Base
-- has the result type: ok, the code's own error, or fault.
--
-- The MySQL sources are a parameter: Mysql is a record of the functions that are called, and
-- Mysql.Laws what my_byteorder.h says of the word readers. Mysql/Toy fills it for the examples.
-- Decode/Widths has the bytes of a value of each type, and Rows/Guarded.Measures says that
-- table_def::calc_field_size counts them. That function reads the length of a value that has one: it
-- gives none where it would read behind the event, which is a fault, and Rows/Coming.HasLengths says
-- that this is not so in the course of an image. An event stands for what its deserialization gives.
-- Tests has concrete inputs.
--
-- Loops are structural over the columns, the events of a payload and the packets of the stream. The
-- loops over the rows and over the parts of a JSON diff run on fuel above the number of bytes that are
-- left, since a round takes one at least.
--
-- Not modelled: the texts of the errors in the methods, which keep only which error it is, the copies
-- of host, user and password, exceptions of the C++ library, the exact interleaving of
-- the stop request inside a packet, main and the signal handler of the
-- example client, build scripts.
pub mod Base
pub mod Text
pub mod Block
pub mod Row
pub mod Mysql
pub mod Decode
pub mod Rows
pub mod Event
pub mod Listener
pub mod Api
pub mod Report
pub mod Client
pub mod Tests
