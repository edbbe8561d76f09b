-- ===== src/Tests.antt =====
-- Concrete inputs on which the theorems apply.
pub mod Fixtures
pub mod OnStore
pub mod OnDispatch
pub mod OnBroker
pub mod OnProducer
pub mod OnConfig
pub mod OnLoading
pub mod OnKafka
pub mod OnMetrics
pub mod OnListener
pub mod OnRecovery
pub mod OnApi
pub mod OnAdmin
