-- ===== src/Accounts/TextRequests/Turns.antt =====
-- Whole requests hand the candidates out in turn, as long as no token is about to expire.
