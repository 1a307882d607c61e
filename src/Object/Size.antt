-- ===== src/Object/Size.antt =====
-- a
