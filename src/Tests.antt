-- ===== src/Tests.antt =====
-- Runs of the theorems at concrete inputs.
mod Announcements
mod Feeds
mod Records
mod Readers
mod Builds
mod Servers
mod Ranges
mod Publishing
mod Commands
mod Exports
mod Tables
mod Queries
mod Stored
mod Answers
mod Lookups
mod Releases
mod Pins
mod Sorted
mod Networks
mod Routes
