-- ===== src/Agenda.antt =====
-- internal/agenda: the two pure engines.
pub mod Next
pub mod Build
pub mod AllDay
