-- ===== src/Replacement/Mutation/Written.antt =====
-- The two ways in which the master's new configuration is built.
