-- ===== src/Models.antt =====
-- app/models: the enumerations and the rows of the database.
pub mod NodeEnums
pub mod JobEnums
pub mod EventEnums
pub mod Rows
pub mod NodeValues
