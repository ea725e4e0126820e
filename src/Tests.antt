-- ===== src/Tests.antt =====
-- The theorems at concrete inputs, a module for each group of programs.
mod Queues
mod Shared
mod Sort
mod Trash
mod Remote
mod Browser
mod Processes
mod Files
mod Environment
mod Notes
mod Conversations
mod Commands
