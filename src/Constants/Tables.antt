-- ===== src/Constants/Tables.antt =====
-- The names in the arrays of constants/.
pub mod Errnos
pub mod Ioctls
pub mod Options
