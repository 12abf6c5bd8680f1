-- ===== src/Repo.antt =====
-- internal/repo: the rows of the database, what each operation does to them, and what no sequence of
-- operations can break.
pub mod Rows
pub mod Manual
pub mod Order
pub mod Keys
pub mod Users
pub mod Config
pub mod Listing
pub mod Sound
pub mod Renaming
pub mod Deleting
pub mod Inserting
pub mod Guards
pub mod Secrets
pub mod Tests
