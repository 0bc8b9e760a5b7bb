-- ===== src/Tests.antt =====
-- Concrete runs of the code, and one use of each theorem of the development.
mod Streams
mod Assembly
mod Sending
mod Transfers
mod Connections
mod Sockets
mod Ends
mod Network
mod Wire
mod Links
mod Loop
