-- ===== src/Tests.antt =====
-- Runs of the theorems on concrete inputs. It models no code of its own.
mod Samples
mod Formats
mod Datagrams
mod Connections
mod Rates
mod Requests
mod Sessions
mod Sunny
mod Logins
mod Settings
