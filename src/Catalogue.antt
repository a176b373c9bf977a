-- ===== src/Catalogue.antt =====
-- The lists of films and of concerts: what they show, in which order, on which page, and for which
-- keyword.
pub mod Paging
pub mod Order
pub mod Movies
pub mod Concerts
