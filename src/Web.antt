-- ===== src/Web.antt =====
-- packages/web/src: the pure logic of the board.
pub mod ActionHistory
pub mod MoveOptions
