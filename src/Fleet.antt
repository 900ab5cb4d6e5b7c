-- ===== src/Fleet.antt =====
-- The tables as the endpoints and the token operations leave them.
pub mod Unique
pub mod Kept
pub mod Reach
pub mod History
pub mod Minted
pub mod Session
pub mod Fetch
pub mod Race
