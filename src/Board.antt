-- ===== src/Board.antt =====
-- The code of board/ that carries logic of its own.
pub mod Flash
