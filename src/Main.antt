-- ===== src/Main.antt =====
-- main.go: the command line.
mod Pattern
mod Flags
mod Uuid
mod Cli
mod Accepted
mod Shutdown
mod Program
mod Logging
mod Tests
