-- ===== src/Tests.antt =====
-- The theorems at small inputs that meet their hypotheses, and runs of the definitions.
mod Samples
mod OfProcess
mod OfReaper
mod OfConfig
mod OfServer
mod OfValidate
mod OfRequests
mod OfGraph
mod OfFiles
mod OfDaemon
mod OfPidlock
mod OfIpc
mod OfLogrotate
