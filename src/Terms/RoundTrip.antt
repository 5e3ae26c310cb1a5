-- ===== src/Terms/RoundTrip.antt =====
-- Terms that are encrypted and decrypted again (terms.go).
use proxy_router.Terms.{Terms}
