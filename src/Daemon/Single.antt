-- ===== src/Daemon/Single.antt =====
-- How many threads collect at a time.
