-- ===== src/Tests.antt =====
-- The properties at work on concrete requests, files and sockets.
mod Disk
mod Wire
mod Requests
mod Files
mod Services
mod Identifiers
mod Loop
mod Ini
mod Printed
mod Library
mod Client
mod Line
mod Start
mod Replies
mod Mocked
mod Served
mod Powered
