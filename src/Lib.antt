-- ===== src/Lib.antt =====
-- AgFS joins the directories of several servers into one FUSE file system. The client
-- (src/agfs.cpp) mounts it; for every server it holds a ServerConnection
-- (src/serverconnection.cpp), which turns a call into a request on a socket. The server
-- (src/agfs-server.cpp) reads requests in a loop, makes the call on its own files under the mount
-- point, and sends the answer. Both sides write and read numbers, strings and stat structs with
-- src/agfsio.cpp. A Disambiguater (src/disambiguater.cpp) merges the listings of the servers, and
-- marks a file that several servers have with the server in braces.
--
-- The parts, and the files that model them:
--  * Base, Words, Monad, Text, SortedMap: integers of a fixed width and their bytes, code that
--    changes a state, std::string::find and substr, and std::map with std::string keys as a list
--    sorted by key.
--  * Os: the machine that a program runs on, a parameter of everything else: its byte order, errno,
--    uninitialised memory, read, write and close. Os/Stream says what is assumed of a connected
--    socket, and gives rules for code that talks over one; Os/Sockets assumes the same of several
--    sockets, each of which is then a stream of its own, and Os/Pieces only that a transfer moves
--    some bytes. Stat is the struct stat.
--  * Constants: src/constants.hpp, and the error numbers used.
--  * Io: src/agfsio.cpp, one definition for each function. Io/Frames gives the bytes of each item,
--    Io/Send and Io/Receive the behaviour of both ends, Io/RoundTrip puts these together,
--    and Io/Faults has the failing reads and writes.
--  * Disambiguater: src/disambiguater.cpp. A method that changes the object returns the new object.
--  * Connection: src/serverconnection.cpp. The methods readFile, writeFile and open are read_file,
--    write_file and open_path. Connection/Calls has their conversations,
--    Connection/Silence what they come to when nothing arrives, and Connection/Pieces the loop of
--    writeFile over a socket that takes its data in parts.
--  * Server: src/agfs-server.cpp. Server/Handlers and Server/Transfers hold the process methods,
--    Server/Transfers/Pieces the loop of processWrite over data that comes in parts, and
--    Server/Commands the loop of processCommands, with its count of missed beats in
--    Server/Commands/Misses. Server/Keys is the constructor's loop over the list
--    of keys, with the std::istream that it reads, and Server/Admission the constructor itself and
--    the process that src/agfsd.cpp forks for a client.
--  * Daemon: src/agfsd.cpp, openPort and main. Daemon/Descriptors says what is assumed of calls that
--    open and close descriptors.
--  * Client: the operations of src/agfs.cpp that choose among the servers: checkExistance,
--    agfs_getattr and agfs_access (Client/Attributes), agfs_readdir (Client/Directories, with the
--    union of the servers' answers in Client/Directories/Union), agfs_open,
--    agfs_read and agfs_write (Client/Contents); and in Client/Startup the loop of main over the key
--    files, heartbeatThread, and agfs_destroy, which stops the connections and joins the threads
--    (Client/Startup/Destroying). Client/Local has the operations that pass a call on
--    to the local system, and the stubs, and Client/Extended those on extended attributes. Client/Main
--    is main up to the call of fuse_main, and Client/Threads has the heartbeat thread of a
--    connection and the other threads that use it, as a relation of single actions.
--    Client/Attributes/Listed follows a listed name from FUSE to the server, and
--    Client/Contents/Remote the data of a file. Client/Attributes/Answers,
--    Client/Directories/Answers and Answered, and Client/Contents/Answers start from the bytes on
--    the sockets of all servers. Client/Silence is about servers that do not answer.
--  * Keygen: src/agfs-keygen.cpp. Keygen/Usable compares what it writes with what is
--    read, and Keygen/Run follows a whole run of it.
--  * Protocol: the bytes of requests and answers. Protocol/Remote runs a call of the client against
--    a round of the server, Protocol/Opening, Protocol/Reading and Protocol/Writing an open, a read
--    and a write of a file, and Protocol/Beat a heartbeat. Protocol/Growing has a directory
--    that changes while it is listed. Protocol/Session describes a client's
--    calls one after the other, and Protocol/Handshake runs a client that connects, makes such
--    calls and stops, against the process that serves it.
--  * Tests: runs at concrete inputs, on machines of both byte orders.
--
-- State and bounds. Code on a machine is a function from the machine's state to a result and the
-- state after it; an object that a method changes is passed in and returned. An int, an ssize_t
-- and an agerr_t are integers, all unsigned types natural numbers; each is cut to its width where
-- it is stored, sent or read. The loops over the bytes of a file take the announced number of
-- bytes as fuel: a round that goes on has moved one byte at least. The loop of processCommands
-- ends only when the client stops or is gone, so it takes any fuel, and is undecided when that
-- runs out. The loop over the list of keys is undecided without fuel too; two rounds more than the
-- list has words decide it. The accept loop of the daemon does not end; theorems are about any
-- number of its rounds. The join of a heartbeat thread runs four actions of the thread, from any
-- place it may stand at: the thread of a stopped connection has no more left. The threads rest
-- while agfs_destroy stops the connections and joins another thread; every other order is in
-- Client/Threads. A forked process has a copy of the state of its own.
--
-- Assumed of the system, where a theorem is about a conversation: a read waits for all bytes it
-- asks for, a write takes all bytes it is given, and the calls on files do not touch the socket;
-- for readFile, which reads the data with one call, this hides what a short read does. The code
-- itself is modelled without these assumptions: short transfers and errors are results of read and
-- write.
--
-- Not modelled: exhausted memory; what is not defined in C++, where the model goes on in the way
-- that is usual (an int that overflows wraps around); exceptions of Boost; the mutex of a
-- ServerConnection (a method that holds it from its start to its end is one action here); what
-- fuse_main does with the table of operations; the messages that the programs print; and
-- src/agfs-client.cpp, which the Makefile does not build.
mod Base
pub mod Words
pub mod Monad
pub mod Os
pub mod Constants
pub mod Stat
pub mod Io
pub mod Text
pub mod SortedMap
pub mod Disambiguater
pub mod Connection
pub mod Protocol
pub mod Client
pub mod Server
pub mod Daemon
pub mod Keygen
mod Tests
