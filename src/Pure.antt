-- ===== src/Pure.antt =====
-- libqubes-pure (qrexec-lib/unicode.c, qube-name.c, pure.h): the validators of untrusted text.
pub mod Allowlist
pub mod Utf8
pub mod Path
pub mod Validate
pub mod QubeName
pub mod Display
