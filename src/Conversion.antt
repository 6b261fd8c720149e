-- ===== src/Conversion.antt =====
-- retroshade/src/conversion.rs: contract values as database columns. Its parts: the numbers
-- (`Number`), the conversion (`Value`) and the parameters of a query (`Sql`).
pub mod Codec
pub mod Number
pub mod Value
pub mod Sql
pub mod Shape
pub mod Voids
pub mod Wide
pub mod Decimal
pub mod Supported
pub mod Accepted
