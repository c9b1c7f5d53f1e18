-- ===== src/Consts.antt =====
-- include/weblib/consts.hpp: the constants, by the struct that holds them.
pub mod HttpConsts
pub mod HeaderConsts
pub mod CookieConsts
