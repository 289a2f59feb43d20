-- ===== src/Tests.antt =====
-- Concrete inputs: a small calendar, and runs of each part of the model.
mod Almanac
mod Samples
mod Cutovers
mod Histories
mod Tables
mod Names
mod Recoveries
mod Objects
mod Databases
mod Logins
mod Migrations
mod Codecs
