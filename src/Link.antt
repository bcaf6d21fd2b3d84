-- ===== src/Link.antt =====
-- internal/link: the fragment of a link, which carries everything that a page needs.
pub mod Query
pub mod Fields
pub mod Origin
pub mod Drop
pub mod Reveal
mod Tests
