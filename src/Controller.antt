-- ===== src/Controller.antt =====
-- sources/controller: the variables, their flags, locks and observers, over the storage.
pub mod VarHelper
pub mod VarFlags
pub mod ClientHelper
pub mod SetVar
pub mod Reading
pub mod Names
pub mod Observing
pub mod Queries
