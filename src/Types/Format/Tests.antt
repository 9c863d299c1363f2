-- ===== src/Types/Format/Tests.antt =====
-- The theorem on channel layouts at a concrete count.
