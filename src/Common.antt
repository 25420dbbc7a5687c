-- ===== src/Common.antt =====
-- im-common/src/main/java/com/itrjp/im/common, what the services share.
pub mod Long
pub mod Md5Utils
pub mod Tokens
mod Tests
