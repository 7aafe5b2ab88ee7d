-- ===== src/Tests.antt =====
-- Concrete inputs: a string library that meets its laws, runs of the code, and each theorem of
-- the other modules with hypotheses at an input that meets them.
mod Model
mod Sender
mod UnitVutil
mod Headers
mod Store
mod Vdb
mod Main
mod Reply
mod Rabin
mod Unvacation
mod Directory
mod Ldap
mod Redis
mod Runs
mod Settings
mod Replies
mod Week
mod Memory
mod Default
