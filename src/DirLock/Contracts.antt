-- ===== src/DirLock/Contracts.antt =====
-- What single operations of backend/lib/dirlock/dirlock.go promise their callers.
use asgard.DirLock.Apart.{Apart}
