-- ===== src/Object/Layout.antt =====
-- a
