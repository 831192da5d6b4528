-- ===== src/Config/Organizations/Watched.antt =====
-- The ids of the watches of an organization.
