-- ===== src/Utils.antt =====
-- controllers/utils: constants (string_constant.go, number_constant.go, native_utils.go) and helpers
-- (common_utils.go).
pub mod Constants
pub mod Names
pub mod Pods
pub mod Percent
pub mod Responses
