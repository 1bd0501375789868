-- ===== src/Public/Sent.antt =====
-- The packet of public information from its sender to the context of the collector.
