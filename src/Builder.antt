-- ===== src/Builder.antt =====
-- apps/dashboard/src/builder: the commands of the workflow builder and their history.
pub mod Canvas
pub mod Commands
pub mod Undo
pub mod Clipboard
pub mod Copies
pub mod Deletion
pub mod Validator
