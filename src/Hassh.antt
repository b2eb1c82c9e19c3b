-- ===== src/Hassh.antt =====
-- pkg/hassh/hassh.go: algorithm names, name-lists, the KEXINIT payload and its fingerprint.
pub mod Names
pub mod NameList
pub mod KexInit
pub mod Fingerprint
