-- ===== src/Semver/Tests.antt =====
-- Versions and features, and the theorems at inputs that meet their hypotheses.
