-- ===== src/Domain.antt =====
-- server/src/types/domain.ts and the rows of the tables that the services read and write.
-- An id is an opaque text that is only compared, so a number stands for it; an instant is a number
-- of milliseconds. Texts that are only shown (names, notes, labels) are left out.
pub mod Status
pub mod Key
pub mod Rows
