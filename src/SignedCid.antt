-- ===== src/SignedCid.antt =====
-- packages/signed-cid: content identifiers that are signed, and their verification.
pub mod External
pub mod Cid
pub mod Signers
mod Tests
