-- ===== src/Asn1.antt =====
-- The ASN.1 DER code: src/asn1/asn1parse.c, src/asn1/asn1write.c, src/asn1/asn1time.c and
-- include/sdcrypt/asn1.h.
pub mod Tag
pub mod Der
pub mod Reader
pub mod Time
pub mod Writer
pub mod RoundTrip
mod Tests
