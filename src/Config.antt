-- ===== src/Config.antt =====
-- common/uconfig and server/global: settings with defaults and limits.
pub mod Params
pub mod Defaults
