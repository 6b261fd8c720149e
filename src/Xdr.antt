-- ===== src/Xdr.antt =====
-- The XDR types of the Stellar protocol, as far as retroshade/src looks into them: each type has
-- the variants and the fields that the source names. A variant or a field that the source only
-- passes on is kept as its XDR bytes, of type `Opaque`.
pub mod Value
pub mod Ledger
pub mod Transaction
