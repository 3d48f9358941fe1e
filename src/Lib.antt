-- ===== src/Lib.antt =====
-- DAQs: a data acquisition system. A client (src/database-server/client) sends the values of named
-- variables over TCP to a server (src/database-server), which keeps them in an SQLite database and
-- answers with them.
--
-- The parts, from the bottom:
--   * DataModel: `Variable` and `VarValue` of src/database-server/data-model. DataModel/Floats has
--     what the code does with a double; the type is a parameter with the laws of IEEE arithmetic
--     that are used, and fractions of natural numbers meet them.
--   * DataSource: the interface `IDataSource` of src/database-server/data-source/idatasource.h, as a
--     record of functions on a world. DataSource/Sqlite: `SQLiteWrapper` (sqlitewrapper.cc), with
--     its SQL texts and its row callbacks. What it calls of SQLite, the conversions of the standard
--     library and the clock are the record of DataSource/Engine, a parameter. DataSource/Statements
--     has the statements whose meaning is assumed, written once more, so that another text in the
--     wrapper has no meaning; DataSource/Tables has the two tables and the meaning of each statement
--     for them, DataSource/Sql the hypotheses that the engine follows these meanings, and
--     DataSource/Memory an engine that does. A double that `%f` does not write as a number, an
--     infinity or a NaN, makes SQLite refuse the statement.
--     DataSource/Stored and DataSource/Changed are about the methods that read and that change the
--     database. DataSource/History is what the tables stand for: variables in their order, each with
--     its values; DataSource/Valid is the invariant of the tables that this needs, and
--     DataSource/Grows says that a history goes on.
--   * DataAccess: `DataAccess` of src/database-server/data-access/dataaccess.cc over any source.
--     DataAccess/Compress is its `compress`, with the three iterators of `apply_compression`;
--     DataAccess/Interface is `IDataAccess` (idataaccess.h). DataAccess/Saved, DataAccess/Added and
--     DataAccess/Ranges are about `DataAccess` over `SQLiteWrapper`, call by call, DataAccess/Bounds
--     about the sizes of what it returns, DataAccess/Whole about ranges that leave nothing out;
--     DataAccess/Calls, DataAccess/Represents and DataAccess/Refined about sequences of calls and
--     the history.
--   * Protocol: the messages of src/protocol/messages.proto. The generated classes are the parameter
--     `Codec`, whose round trips, within the ranges of the fields, are the hypotheses `IsProtobuf`;
--     Protocol/Plain is a codec that
--     meets them. Protocol/Frame is a message on the wire: MetaHeader, Header and body.
--   * Session: `Session` of src/database-server/session.cc, as a machine. A phase is the read or the
--     write that is pending; an event is its completion; `step` is the handler that runs then. The
--     calls of the data access are those of any `IDataAccess`.
--   * Client: `Client` of src/database-server/client/client.cc: the bytes that its requests write,
--     and the slot `onReadyRead` (`on_ready_read`) on a socket that is a parameter;
--     Client/Connection is its connection, and Client/Machine the slot as Qt calls it, with the
--     connection of readyRead that it takes away and makes again.
--   * Exchange: the meanings of requests and answers. Session/Serve and Session/Series are about one
--     request and about several, Session/Safety about any event, Client/Reading and Client/Answers
--     about what the slot reads in one call, Client/Listen in several, Client/Writing about what the
--     client writes, and Exchange/Whole and Exchange/Conversation about both programs together.
--     Exchange/Story says what the server is for without a database, a session or a byte: a history
--     of the variables, and what it answers; Exchange/Asked says which request a body asks for,
--     whoever wrote it; Exchange/Answered and Exchange/Told are about the server and this.
--   * Server: the class `server` of src/database-server/server.cc: how it starts, and
--     (Server/System) the sessions that `do_accept` starts over one data access, and `main`. Boost's
--     loop runs one handler at a time; which one is an action, and a schedule is a list of actions.
--     Server/Serial and Server/Swap are about their order, Server/Replies and Server/Linear about
--     what they answer, Server/Kept about what they may do to the database, and Server/Life about a
--     server from its start on. Server/Loop is the loop in `main` when memory is limited, and
--     Server/Limits about the sizes that the peers announce, which Session/Announced reads off their
--     bytes; Server/Dates is about the runs that are undefined. Server/Network adds the bytes on the
--     connections: the operation that a session waits for completes when its bytes are there, and a
--     schedule says whose turn it is. Server/Stage, Server/Advance and Server/Turn are about one
--     turn, Server/Log, Server/Places and Server/Everyone about the turns of all, and Server/Outcome,
--     Server/Served and Server/Clients about what the clients get.
--   * Hmi: the models of the graphical program, src/hmi/model, and (Hmi/App) both on one client as
--     src/hmi/main.cc connects them: how the signals of the client change what is shown, and what
--     the models let the client write; Hmi/Start is the start of the program, whose server's address
--     is another one on Android, and Hmi/Events what may happen to it while it runs. Hmi/Answered is
--     about an answer from its packet to the model, and Hmi/Shown about the whole way from the
--     program to the database and back, Hmi/Latest and Hmi/Behind about what is shown when packets
--     come.
-- Base has what the modules share, and Base/Int the integers with the conversions of std::chrono.
--
-- Conventions. A method takes the world and gives it back. A result `none` is undefined behaviour,
-- or an exception that leaves a `noexcept` function. An iterator is a position: moving it is free
-- and reading through it is checked. A `size_t` is a number below 2^64, with its wrap-around written
-- out where the code computes one; numbers of values are below 2^53 where they become doubles. A
-- byte is a number. The clock's ticks in a millisecond and the longest length that `reserve` accepts
-- are arguments. The client's loop that reads a long body runs on fuel: two rounds for each byte are
-- enough. A text holds no NUL. SQLite gives the rows of a table in the order in which they were
-- added, which it does without ORDER BY but does not promise. The other loops follow the structure
-- of their list.
--
-- In Server/Loop the largest buffer that can be had is an argument; elsewhere memory is not limited.
-- readyRead is emitted when a packet comes while the slot does not run; bytes that come while it waits
-- are what the socket's wait gives.
--
-- Not modelled: the log output; a lack of memory for anything but the two buffers of Server/Loop;
-- messages longer than `int` can count, which the server casts, and lists longer than `int` can
-- count, which the graphical program casts; Boost's loop and its sockets, but for the order of the
-- handlers; Qt's event loop and its connections of signals, but for readyRead; the user interface in
-- QML and the start of Qt in src/hmi/main.cc; the tests.
pub mod Base
pub mod DataModel
pub mod DataSource
pub mod DataAccess
pub mod Protocol
pub mod Session
pub mod Client
pub mod Exchange
pub mod Server
pub mod Hmi
