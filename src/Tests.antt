-- ===== src/Tests.antt =====
-- Runs at concrete inputs, over a machine whose sockets are lists of bytes.
mod Machine
mod Io
mod Names
mod Remote
mod Handshake
mod Keys
mod Disk
mod Local
mod Threads
mod Union
mod Listed
mod Startup
mod Daemon
mod Client
mod Switchboard
mod Answers
mod Silence
mod Growing
mod Pieces
