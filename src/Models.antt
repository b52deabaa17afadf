-- ===== src/Models.antt =====
-- app/models: the rows of the tables and the enumerations in their columns.
pub mod Enums
pub mod People
pub mod Work
pub mod Office
pub mod Document
pub use People.*
pub use Work.*
pub use Office.*
pub use Document.*
