-- ===== src/Android.antt =====
-- android-client/: the native part of the application.
pub mod Crypto
